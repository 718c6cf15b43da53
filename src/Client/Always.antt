-- ===== src/Client/Always.antt =====
-- What each step of the loop of _checkOutbox (src/MqttClient.cpp) keeps, the loop keeps.
use esp_mqtt_client.Prelude.{
  List, [], ◌∷◌, Option, none, some, Bool-cases, Option-cases, inl, inr, All, subst,
}
use esp_mqtt_client.Client.{Client}
use esp_mqtt_client.Client.Sending.{
  Answer, send_packet, advance_outbox, check_outbox, has_current, is_positive,
}

-- A predicate of the client that an operation leaves, if it leaves one
abbrev pub Always : (Client → Type 0) → Option Client → Type 0
Always P none = Unit {0}
Always P (some c) = P c

abbrev pub AlwaysWith {ℓ} : {A : Type ℓ} → (Client → Type 0) → Option (Client × A) → Type 0
AlwaysWith P none = Unit {0}
AlwaysWith P (some r) = P r.0

pub AlwaysWith-map {ℓ} :
    {A : Type ℓ} {P Q : Client → Type 0} (o : Option (Client × A))
    → ((c : Client) → P c → Q c)
    → AlwaysWith P o
    → AlwaysWith Q o
AlwaysWith-map none f h = h
AlwaysWith-map (some r) f h = f r.0 h

module _ (A : Answer → Type 0) (P : Client → Type 0)
    (sends : (w : Answer) (c : Client) → A w → P c → AlwaysWith P (send_packet w c))
    (advances : (c : Client) → P c → P (advance_outbox c)) where
  pub check_outbox-Always :
      (ws : List Answer) (c : Client) → All A ws → P c → Always P (check_outbox ws c)
  unfolding check_outbox
  check_outbox-Always [] c a p = tt
  check_outbox-Always (w ∷ ws) c a p = elim (Option-cases (send_packet w c)) [
    | inl e ↦ rw (check_outbox, e) tt
    | inr (r, e) ↦
        let q : P r.0 = subst (AlwaysWith P) e (sends w c a.0 p) in
        let q' = advances r.0 q in
        elim (Bool-cases (is_positive r.1)) [
          | inr n ↦ rw (check_outbox, e, n) q
          | inl y ↦ elim (Bool-cases (has_current (advance_outbox r.0))) [
            | inr n ↦ rw (check_outbox, e, y, n) q'
            | inl z ↦
                rw (check_outbox, e, y, z) (check_outbox-Always ws (advance_outbox r.0) a.1 q')
          ]
        ]
  ]

any : (ws : List Answer) → All (λ w. Unit {0}) ws
any [] = tt
any (w ∷ ws) = (tt, any ws)

-- The same whatever the transport answers
pub check_outbox_keeps :
    (P : Client → Type 0)
    → ((w : Answer) (c : Client) → P c → AlwaysWith P (send_packet w c))
    → ((c : Client) → P c → P (advance_outbox c))
    → (ws : List Answer) (c : Client) → P c
    → Always P (check_outbox ws c)
check_outbox_keeps P sends advances ws c p =
    check_outbox-Always (λ w. Unit {0}) P (λ w d a q. sends w d q) advances ws c (any ws) p
