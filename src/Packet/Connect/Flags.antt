-- ===== src/Packet/Connect/Flags.antt =====
-- The flags byte of the CONNECT constructor of src/Packets/Packet.cpp against that of the protocol.
use esp_mqtt_client.Prelude.{
  ℕ, zero, suc, ◌+◌, ◌*◌, ◌≤◌, ◌≡◌, refl, Bool, true, false, arith, ◌==◌, ◌&&◌, ==_iff,
}
use esp_mqtt_client.Packet.Connect.{ConnectArgs, connect_flags, connect_flags_of, is_some}

abbrev pub flag : Bool → ℕ → ℕ
flag true n = n
flag false n = 0

-- The flags of the protocol: user name, password, will retain, will QoS, will, clean session.
abbrev pub protocol_flags : ConnectArgs → ℕ
protocol_flags args =
    flag (is_some args.username) 128
    + flag (is_some args.password) 64
    + flag (is_some args.will_topic) (flag args.will_retain 32 + args.will_qos * 8 + 4)
    + flag args.clean_session 2

both : (Bool → Bool) → Bool
both f = f true && f false

both_sound : (f : Bool → Bool) (b : Bool) → both f ≡ true → f b ≡ true
unfolding both
both_sound f true h = ground arith
both_sound f false h = ground arith

abbrev flags_agree : ℕ → (session user password will retain : Bool) → Bool
flags_agree qos session user password will retain =
    connect_flags_of session user password will retain qos
    == flag user 128 + flag password 64 + flag will (flag retain 32 + qos * 8 + 4) + flag session 2

abbrev flags_table : ℕ → Bool
flags_table qos = both λ s. both λ u. both λ p. both λ w. both λ r. flags_agree qos s u p w r

flags_table_holds : (qos : ℕ) → qos ≤ 2 → flags_table qos ≡ true
unfolding connect_flags_of both
flags_table_holds zero h = refl
flags_table_holds (suc zero) h = refl
flags_table_holds (suc (suc zero)) h = refl
flags_table_holds (suc (suc (suc n))) h = absurd (omega arith)

-- For a will QoS of at most 2 the flags byte is that of the protocol, whatever is set.
pub connect_flags_lem :
    (args : ConnectArgs) → args.will_qos ≤ 2 → connect_flags args ≡ protocol_flags args
unfolding connect_flags
connect_flags_lem args h = (==_iff _ _).0 (
    both_sound _ args.will_retain (
      both_sound _ (is_some args.will_topic) (
        both_sound _ (is_some args.password) (
          both_sound _ (is_some args.username)
            (both_sound _ args.clean_session (flags_table_holds args.will_qos h))))))
