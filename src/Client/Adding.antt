-- ===== src/Client/Adding.antt =====
-- _addPacket and _addPacketFront of src/MqttClient.h: they always return, and what they leave.
use esp_mqtt_client.Prelude.{
  ℕ, ◌+◌, ◌≤◌, ◌≡◌, List, [], ◌∷◌, ◌++◌, Option, some, Bool, true, false, arith, refl, ap,
  Bool-cases, inl, inr,
}
use esp_mqtt_client.Packet.{Packet, Error, Memory}
use esp_mqtt_client.Packet.Makes.{Makes, greatest}
use esp_mqtt_client.Outbox.Queue
use esp_mqtt_client.Outbox.Queue.{Queue}
use esp_mqtt_client.Client.{Client, OutgoingPacket}
use esp_mqtt_client.Client.Queueing.{Alloc, add_packet, add_packet_front, new_packet, is_success}
use esp_mqtt_client.Client.Pending.{ArePlain, total}
use esp_mqtt_client.Client.Outcomes.{remove_at-push_back}
use esp_mqtt_client.Client.Plain.{
  filled-IsPlain, is_success-success, HasPlain, ArePlain-append, push_back-HasPlain,
}

total-append :
    (xs : List OutgoingPacket) (o : OutgoingPacket)
    → total (xs ++ (o ∷ [])) ≡ total xs + o.packet.size
total-append [] o = omega arith
total-append (x ∷ xs) o = let h = total-append xs o in omega arith

-- What adding a packet leaves
pub record Adds (limit : ℕ) (c c' : Client) : Type 0 where
  pub plain : HasPlain c'.outbox
  pub parser : c'.parser ≡ c.parser
  pub state : c'.state ≡ c.state
  pub more : total c'.outbox.pending ≤ total c.outbox.pending + limit

module _ (limit : ℕ) (l : limit ≤ greatest) (a : Alloc) (make : Memory → Option (Packet × Error))
    (c : Client) (h : HasPlain c.outbox) where
  nothing : Adds limit c c
  nothing = record { plain = h; parser = refl; state = refl; more = omega arith }

  pub add_packet-Adds :
      Makes limit (make a.memory)
      → (r : Client × Bool) × (add_packet a make c ≡ some r) × Adds limit c r.0
  unfolding add_packet
  add_packet-Adds (made, e, filled) = elim (Bool-cases a.node_allocated) [
    | inr n ↦ ((c, false), rw (add_packet, n) refl, nothing)
    | inl y ↦ elim (Bool-cases (is_success made.1)) [
      | inl good ↦
          let (plain, size) =
            filled-IsPlain limit made.0 l (filled (is_success-success made.1 good)) in
          (
            (record c { outbox = Queue.push_back (new_packet made.0) c.outbox }, true),
            rw (add_packet, y, e, good) refl,
            record {
              plain = push_back-HasPlain (new_packet made.0) c.outbox plain h;
              parser = refl;
              state = refl;
              more =
                  let grows = total-append c.outbox.pending (new_packet made.0) in
                  omega (arith, grows, size);
            },
          )
      | inr bad ↦ (
        (c, false),
        rw (add_packet, y, e, bad)
            (ap (λ q. some (record c { outbox = q }, false))
              (remove_at-push_back (new_packet made.0) c.outbox)),
        nothing,
      )
    ]
  ]

  -- Nothing, or the packet in front of all that were there: the cursor moves back to the first packet.
  pub add_packet_front-HasPlain :
      Makes limit (make a.memory)
      → (r : Client × Bool) × (add_packet_front a make c ≡ some r)
        × HasPlain r.0.outbox
        × (r.0.parser ≡ c.parser)
        × (r.0.state ≡ c.state)
  unfolding add_packet_front
  add_packet_front-HasPlain (made, e, filled) = elim (Bool-cases a.node_allocated) [
    | inr n ↦ ((c, false), rw (add_packet_front, n) refl, h, refl, refl)
    | inl y ↦ elim (Bool-cases (is_success made.1)) [
      | inl good ↦
          let (plain, size) =
            filled-IsPlain limit made.0 l (filled (is_success-success made.1 good)) in
          (
            (record c { outbox = Queue.push_front (new_packet made.0) c.outbox }, true),
            rw (add_packet_front, y, e, good) refl,
            record { sent = tt; pending = (plain, both) },
            refl,
            refl,
          )
      | inr bad ↦ (
        (
          record c { outbox = record { sent = []; pending = c.outbox.sent ++ c.outbox.pending } },
          false,
        ),
        rw (add_packet_front, y, e, bad) refl,
        record { sent = tt; pending = both },
        refl,
        refl,
      )
    ]
  ]
    where
      both : ArePlain (c.outbox.sent ++ c.outbox.pending)
      both = ArePlain-append c.outbox.sent c.outbox.pending h.sent h.pending
