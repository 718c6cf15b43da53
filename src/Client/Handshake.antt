-- ===== src/Client/Handshake.antt =====
-- The acknowledgement handlers of src/MqttClient.cpp against the MQTT handshakes.
use esp_mqtt_client.Prelude.{
  ℕ, suc, ◌+◌, ◌*◌, ◌<◌, ◌≡◌, refl, sym, ap, ◌∙◌, List, [], ◌∷◌, ◌++◌, none, some, Bool, true,
  false, length, arith, if◌then◌else◌, Bool-cases, inl, inr, append_assoc, append-nil, All, ◌==◌,
}
use esp_mqtt_client.Config.{publish_type, pubrec_type, pubrel_type, pubcomp_type}
use esp_mqtt_client.Packet.Frame.{HasMemory, packet_of}
use esp_mqtt_client.Packet.Publish.{create_ack-frame, ack_frame}
use esp_mqtt_client.Outbox.Queue
use esp_mqtt_client.Outbox.Queue.{Queue}
use esp_mqtt_client.Client.{Client, OutgoingPacket, on_publish}
use esp_mqtt_client.Client.Queueing.{Alloc, add_packet, new_packet}
use esp_mqtt_client.Client.Incoming.{
  find_first, has_type, match_first, remove, complete, replace, acknowledge, on_puback, on_pubcomp,
  on_pubrec, on_pubrel,
}
use esp_mqtt_client.Client.Clear.{items-remove_at, remove_nth-middle}

pub find_first-middle :
    (test : OutgoingPacket → Bool) (before : List OutgoingPacket) (o : OutgoingPacket)
    (after : List OutgoingPacket) (k : ℕ)
    → All (λ x. test x ≡ false) before
    → test o ≡ true
    → find_first test (before ++ (o ∷ after)) k ≡ some (k + length before, o)
find_first-middle test [] o after k h y =
    let same : k ≡ k + 0 = omega arith in rw y (ap (λ n. some (n, o)) same)
find_first-middle test (x ∷ before) o after k h y =
    let same : suc k + length before ≡ k + suc (length before) = omega arith in
    rw h.0 (find_first-middle test before o after (suc k) h.1 y ∙ ap (λ n. some (n, o)) same)

-- The first packet of a type in the outbox, with the packets before and behind it.
pub record FirstOf (type : ℕ) (c : Client) (before : List OutgoingPacket) (o : OutgoingPacket)
    (after : List OutgoingPacket) : Type 0 where
  pub items : Queue.items c.outbox ≡ before ++ (o ∷ after)
  pub not_before : All (λ x. has_type type x ≡ false) before
  pub has : has_type type o ≡ true

match_first-FirstOf :
    (type id : ℕ) (c : Client) (before : List OutgoingPacket) (o : OutgoingPacket)
    (after : List OutgoingPacket)
    → FirstOf type c before o after
    → match_first type id c ≡ (if o.packet.packet_id == id then some (length before) else none)
unfolding match_first
match_first-FirstOf type id c before o after f =
    let zero_plus : 0 + length before ≡ length before = omega arith in
    let found : find_first (has_type type) (Queue.items c.outbox) 0 ≡ some (length before, o) =
      ap (λ l. find_first (has_type type) l 0) f.items
      ∙ find_first-middle (has_type type) before o after 0 f.not_before f.has
      ∙ ap (λ n. some (n, o)) zero_plus in
    rw (match_first, found) refl

-- What remains of the packets around `o`, by whether it is the one acknowledged, and `more` behind.
abbrev pub acknowledged_items :
    ℕ
    → List OutgoingPacket
    → OutgoingPacket
    → List OutgoingPacket
    → List OutgoingPacket
    → List OutgoingPacket
acknowledged_items id before o after more =
    if o.packet.packet_id == id then before ++ (after ++ more) else before ++ (o ∷ after)

removed_items :
    (q : Queue OutgoingPacket) (before : List OutgoingPacket) (o : OutgoingPacket)
    (after : List OutgoingPacket)
    → Queue.items q ≡ before ++ (o ∷ after)
    → Queue.items (Queue.remove_at (length before) q) ≡ before ++ after
removed_items q before o after e =
    items-remove_at (length before) q
    ∙ ap (Queue.remove_nth (length before)) e
    ∙ remove_nth-middle before o after

complete-FirstOf :
    (type : ℕ) (c : Client) (before : List OutgoingPacket) (o : OutgoingPacket)
    (after : List OutgoingPacket)
    → FirstOf type c before o after
    → (Queue.items (complete type c).outbox
        ≡ acknowledged_items c.parser.incoming.fixed before o after [])
      × ((complete type c).events ≡ (
          if o.packet.packet_id == c.parser.incoming.fixed
          then on_publish c.parser.incoming.fixed ∷ c.events
          else c.events))
unfolding complete
complete-FirstOf type c before o after f =
    let id = c.parser.incoming.fixed in
    let found = match_first-FirstOf type id c before o after f in
    elim (Bool-cases (o.packet.packet_id == id)) [
      | inl y ↦
          rw (complete, found, y)
            (
              removed_items c.outbox before o after f.items
                  ∙ ap (λ l. before ++ l) (sym (append-nil after)),
              refl,
            )
      | inr n ↦ rw (complete, found, n) (f.items, refl)
    ]

-- A PUBACK looks at the first PUBLISH packet in the outbox, `o`, only: if its packet id is the one
-- acknowledged, exactly that packet leaves the outbox, the others stay in order, and the
-- publication is reported once; if not, the outbox stays as it is and nothing is reported.
pub on_puback-FirstOf :
    (c : Client) (before : List OutgoingPacket) (o : OutgoingPacket) (after : List OutgoingPacket)
    → FirstOf publish_type c before o after
    → (Queue.items (on_puback c).outbox
        ≡ acknowledged_items c.parser.incoming.fixed before o after [])
      × ((on_puback c).events ≡ (
          if o.packet.packet_id == c.parser.incoming.fixed
          then on_publish c.parser.incoming.fixed ∷ c.events
          else c.events))
unfolding on_puback
on_puback-FirstOf c before o after f = complete-FirstOf publish_type c before o after f

-- A PUBCOMP looks at the first PUBREL packet in the outbox, `o`, only: if its packet id is the one
-- acknowledged, exactly that packet leaves the outbox, the others stay in order, and the
-- publication is reported once; if not, the packets stay as they are and nothing is reported.
pub on_pubcomp-FirstOf :
    (c : Client) (before : List OutgoingPacket) (o : OutgoingPacket) (after : List OutgoingPacket)
    → FirstOf pubrel_type c before o after
    → (Queue.items (on_pubcomp c).outbox
        ≡ acknowledged_items c.parser.incoming.fixed before o after [])
      × ((on_pubcomp c).events ≡ (
          if o.packet.packet_id == c.parser.incoming.fixed
          then on_publish c.parser.incoming.fixed ∷ c.events
          else c.events))
unfolding on_pubcomp
on_pubcomp-FirstOf c before o after f = complete-FirstOf pubrel_type c before o after f

-- The packet that the answer to an acknowledgement adds.
abbrev pub answer : ℕ → ℕ → OutgoingPacket
answer type id = new_packet (packet_of id (ack_frame type id))

-- Memory for a node and its packet.
pub record HasAlloc (a : Alloc) : Type 0 where
  pub node : a.node_allocated ≡ true
  pub memory : HasMemory a.memory

pub acknowledge-HasAlloc :
    (a : Alloc) (n id : ℕ) (c : Client)
    → HasAlloc a
    → n < 4
    → acknowledge a ((4 + n) * 16) id c
      ≡ some (record c { outbox = Queue.push_back (answer ((4 + n) * 16) id) c.outbox })
unfolding acknowledge add_packet
acknowledge-HasAlloc a n id c h k = rw (h.node, create_ack-frame a.memory n id h.memory k) refl

replace-FirstOf :
    (a : Alloc) (type n : ℕ) (c : Client) (before : List OutgoingPacket) (o : OutgoingPacket)
    (after : List OutgoingPacket)
    → HasAlloc a
    → n < 4
    → FirstOf type c before o after
    → (c' : Client) × (replace a type ((4 + n) * 16) c ≡ some c')
      × (Queue.items c'.outbox
          ≡ acknowledged_items c.parser.incoming.fixed before o after
              (answer ((4 + n) * 16) c.parser.incoming.fixed ∷ []))
      × (c'.events ≡ c.events)
unfolding replace
replace-FirstOf a type n c before o after h k f =
    let id = c.parser.incoming.fixed in
    let found = match_first-FirstOf type id c before o after f in
    let x = answer ((4 + n) * 16) id in
    let pushed : Queue.items (Queue.push_back x c.outbox) ≡ before ++ (o ∷ (after ++ (x ∷ []))) =
      sym (append_assoc c.outbox.sent c.outbox.pending (x ∷ []))
      ∙ ap (λ l. l ++ (x ∷ [])) f.items
      ∙ append_assoc before (o ∷ after) (x ∷ []) in
    elim (Bool-cases (o.packet.packet_id == id)) [
      | inl y ↦ (
        remove (length before) (record c { outbox = Queue.push_back x c.outbox }),
        rw (replace, found, y, acknowledge-HasAlloc a n id c h k) refl,
        rw y (removed_items (Queue.push_back x c.outbox) before o (after ++ (x ∷ [])) pushed),
        refl,
      )
      | inr m ↦ (c, rw (replace, found, m) refl, rw m f.items, refl)
    ]

-- With memory for a packet, and with `o` the first PUBLISH packet in the outbox, a PUBREC with the
-- packet id of `o` replaces it by a PUBREL with that id at the end of the outbox; a PUBREC with
-- another id leaves the packets as they are. No callback is called.
pub on_pubrec-FirstOf :
    (a : Alloc) (c : Client) (before : List OutgoingPacket) (o : OutgoingPacket)
    (after : List OutgoingPacket)
    → HasAlloc a
    → FirstOf publish_type c before o after
    → (c' : Client) × (on_pubrec a c ≡ some c')
      × (Queue.items c'.outbox
          ≡ acknowledged_items c.parser.incoming.fixed before o after
              (answer pubrel_type c.parser.incoming.fixed ∷ []))
      × (c'.events ≡ c.events)
unfolding on_pubrec
on_pubrec-FirstOf a c before o after h f =
    replace-FirstOf a publish_type 2 c before o after h (omega arith) f

-- With memory for a packet, and with `o` the first PUBREC packet in the outbox, a PUBREL with the
-- packet id of `o` replaces it by a PUBCOMP with that id at the end of the outbox; a PUBREL with
-- another id leaves the packets as they are. No callback is called.
pub on_pubrel-FirstOf :
    (a : Alloc) (c : Client) (before : List OutgoingPacket) (o : OutgoingPacket)
    (after : List OutgoingPacket)
    → HasAlloc a
    → FirstOf pubrec_type c before o after
    → (c' : Client) × (on_pubrel a c ≡ some c')
      × (Queue.items c'.outbox
          ≡ acknowledged_items c.parser.incoming.fixed before o after
              (answer pubcomp_type c.parser.incoming.fixed ∷ []))
      × (c'.events ≡ c.events)
unfolding on_pubrel
on_pubrel-FirstOf a c before o after h f =
    replace-FirstOf a pubrec_type 3 c before o after h (omega arith) f
