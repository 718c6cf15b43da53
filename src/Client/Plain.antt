-- ===== src/Client/Plain.antt =====
-- Outboxes of filled packets (src/MqttClient.cpp): which operations keep every packet filled.
use esp_mqtt_client.Prelude.{
  ℕ, ◌≤◌, zero, suc, ◌-◌, ◌≡◌, List, [], ◌∷◌, ◌++◌, Option, none, some, Bool, true, false, length,
  arith, refl, ◌∙◌, ltb, Bool-cases, inl, inr, subst, sym, ◌⊎◌,
}
use esp_mqtt_client.Packet.{Packet, Error, Memory, success, set_dup, mark_dup}
use esp_mqtt_client.Packet.Frame.{packet_of}
use esp_mqtt_client.Packet.Makes.{IsFilled, Makes, greatest}
use esp_mqtt_client.Outbox.Queue
use esp_mqtt_client.Outbox.Queue.{Queue}
use esp_mqtt_client.Client.{Client, OutgoingPacket}
use esp_mqtt_client.Client.Queueing.{Alloc, add_packet, new_packet, is_success, clear_queue, keeps}
use esp_mqtt_client.Client.Clear.{filter, clear_queue-filter}
use esp_mqtt_client.Client.Outgoing.{IsPlain, bytes_of}
use esp_mqtt_client.Client.Pending.{ArePlain}
use esp_mqtt_client.Client.Outcomes.{Added, add_packet-Added}

-- Every packet of the outbox is filled.
pub record HasPlain (q : Queue OutgoingPacket) : Type 0 where
  pub sent : ArePlain q.sent
  pub pending : ArePlain q.pending

pub ArePlain-append :
    (xs ys : List OutgoingPacket) → ArePlain xs → ArePlain ys → ArePlain (xs ++ ys)
ArePlain-append [] ys h k = k
ArePlain-append (x ∷ xs) ys h k = (h.0, ArePlain-append xs ys h.1 k)

pub ArePlain-tail : (xs : List OutgoingPacket) → ArePlain xs → ArePlain (Queue.tail xs)
ArePlain-tail [] h = h
ArePlain-tail (x ∷ xs) h = h.1

ArePlain-remove_nth :
    (i : ℕ) (xs : List OutgoingPacket) → ArePlain xs → ArePlain (Queue.remove_nth i xs)
ArePlain-remove_nth zero [] h = h
ArePlain-remove_nth (suc i) [] h = h
ArePlain-remove_nth zero (x ∷ xs) h = h.1
ArePlain-remove_nth (suc i) (x ∷ xs) h = (h.0, ArePlain-remove_nth i xs h.1)

ArePlain-filter :
    (keep : OutgoingPacket → Bool) (xs : List OutgoingPacket)
    → ArePlain xs
    → ArePlain (filter keep xs)
ArePlain-filter keep [] h = h
ArePlain-filter keep (x ∷ xs) h = elim (Bool-cases (keep x)) [
  | inl y ↦ rw (filter, y) (h.0, ArePlain-filter keep xs h.1)
  | inr n ↦ rw (filter, n) (ArePlain-filter keep xs h.1)
]

pub push_back-HasPlain :
    (o : OutgoingPacket) (q : Queue OutgoingPacket)
    → IsPlain o.packet
    → HasPlain q
    → HasPlain (Queue.push_back o q)
push_back-HasPlain o q p h = record {
  sent = h.sent;
  pending = ArePlain-append q.pending (o ∷ []) h.pending (p, tt);
}

pub remove_at-HasPlain :
    (i : ℕ) (q : Queue OutgoingPacket) → HasPlain q → HasPlain (Queue.remove_at i q)
remove_at-HasPlain i q h = elim (Bool-cases (ltb i (length q.sent))) [
  | inl y ↦ rw y (record { sent = ArePlain-remove_nth i q.sent h.sent; pending = h.pending })
  | inr n ↦ rw n (record {
    sent = h.sent;
    pending = ArePlain-remove_nth (i - length q.sent) q.pending h.pending;
  })
]

pub rewind-HasPlain : (q : Queue OutgoingPacket) → HasPlain q → HasPlain (Queue.rewind q)
rewind-HasPlain q h = record {
  sent = tt;
  pending = ArePlain-append q.sent q.pending h.sent h.pending;
}

pub clear_queue-HasPlain :
    (mode : ℕ) (c : Client) → HasPlain c.outbox → HasPlain (clear_queue mode c).outbox
clear_queue-HasPlain mode c h = rw (clear_queue-filter mode c) (record {
  sent = ArePlain-filter (keeps mode) c.outbox.sent h.sent;
  pending = ArePlain-filter (keeps mode) c.outbox.pending h.pending;
})

-- What a constructor makes when it succeeds
abbrev pub MakesPlain : Option (Packet × Error) → Type 0
MakesPlain none = Unit {0}
MakesPlain (some r) = is_success r.1 ≡ true → IsPlain r.0

made-IsPlain :
    (made : Option (Packet × Error)) (r : Packet × Error)
    → MakesPlain made
    → made ≡ some r
    → is_success r.1 ≡ true
    → IsPlain r.0
made-IsPlain made r h e good = subst MakesPlain e h good

-- The outbox of what an operation leaves
abbrev pub LeavesPlain {ℓ} : {A : Type ℓ} → Option (Client × A) → Type 0
LeavesPlain none = Unit {0}
LeavesPlain (some r) = HasPlain r.0.outbox

pub add_packet-HasPlain :
    (a : Alloc) (make : Memory → Option (Packet × Error)) (c : Client)
    → MakesPlain (make a.memory)
    → HasPlain c.outbox
    → LeavesPlain (add_packet a make c)
add_packet-HasPlain a make c made h = from_Added (add_packet a make c) (add_packet-Added a make c)
  where
    from_Added : (r : Option (Client × Bool)) → Added (make a.memory) c r → LeavesPlain r
    from_Added none e = tt
    from_Added (some (c', false)) e = subst (λ (d : Client). HasPlain d.outbox) (sym e) h
    from_Added (some (c', true)) (r, run, good, e) =
        subst (λ (d : Client). HasPlain d.outbox) (sym e)
          (push_back-HasPlain (new_packet r.0) c.outbox
            (made-IsPlain (make a.memory) r made run good) h)

pub filled-IsPlain :
    (limit : ℕ) (p : Packet) → limit ≤ greatest → IsFilled limit p → IsPlain p × (p.size ≤ limit)
filled-IsPlain limit p l f =
    let plain : IsPlain (packet_of f.same.0 f.bytes) = record {
      no_callback = refl;
      filled = refl;
      whole = refl;
      nonempty = f.nonempty;
      short = let s = f.short in omega arith;
    } in
    (
      subst IsPlain (sym f.same.1) plain,
      subst (λ (q : Packet). q.size ≤ limit) (sym f.same.1) f.short,
    )

pub is_success-success : (e : Error) → is_success e ≡ true → e ≡ success
is_success-success e h = ground arith

pub Makes-MakesPlain :
    (limit : ℕ) (made : Option (Packet × Error))
    → limit ≤ greatest
    → Makes limit made
    → MakesPlain made
Makes-MakesPlain limit made l (r, e, filled) =
    subst MakesPlain (sym e)
      (λ good. (filled-IsPlain limit r.0 l (filled (is_success-success r.1 good))).0)

set_dup_cases :
    (p : Packet)
    → (set_dup p ≡ p) ⊎ (set_dup p ≡ record p { contents = some (mark_dup (bytes_of p)) })
unfolding set_dup
set_dup_cases p = ground arith

length-mark_dup : (bytes : List ℕ) → length (mark_dup bytes) ≡ length bytes
unfolding mark_dup
length-mark_dup [] = refl
length-mark_dup (b ∷ bytes) = refl

-- setDup changes one byte at most.
pub set_dup-IsPlain : (p : Packet) → IsPlain p → IsPlain (set_dup p)
set_dup-IsPlain p h = elim (set_dup_cases p) [
  | inl same ↦ rw same h
  | inr marked ↦ rw marked (record {
    no_callback = h.no_callback;
    filled = refl;
    whole = length-mark_dup (bytes_of p) ∙ h.whole;
    nonempty = h.nonempty;
    short = h.short;
  })
]
