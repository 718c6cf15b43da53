-- ===== src/Packet/Connect/Makes.antt =====
-- The CONNECT constructor of src/Packets/Packet.cpp on every answer of the memory: it does not ask for
-- the free memory.
use esp_mqtt_client.Prelude.{
  ℕ, ◌≤◌, ◌<◌, ◌≡◌, List, Option, none, some, false, length, arith, refl, Bool-cases, inl, inr, ◌∙◌,
  sym,
}
use esp_mqtt_client.Config.{emc_min_free_memory}
use esp_mqtt_client.Packet.{Packet, Memory, success, out_of_memory, fresh_packet, allocate}
use esp_mqtt_client.Packet.Create.{build}
use esp_mqtt_client.Packet.Frame.{frame, packet_of, length-frame}
use esp_mqtt_client.Packet.Publish.{build_fails}
use esp_mqtt_client.Packet.Makes.{Makes, greatest}
use esp_mqtt_client.Packet.Connect.{ConnectArgs, create_connect, create_connect_as, connect_length}
use esp_mqtt_client.Packet.Connect.Body.{IsShort, HasWill, connect_body, will_chunks-concat}
use esp_mqtt_client.Packet.Connect.Frame.{
  length-connect_body, create_connect-frame, create_connect_named,
}

-- The arguments with which a CONNECT packet can be made
pub record IsConnectable (args : ConnectArgs) : Type 0 where
  pub client_id : List ℕ
  pub will : Option (List ℕ × List ℕ)
  pub named : args.client_id ≡ some client_id
  pub nonempty : 0 < length client_id
  pub short_id : length client_id ≤ 65535
  pub short_username : IsShort args.username
  pub short_password : IsShort args.password
  pub will_qos : args.will_qos ≤ 2
  pub has_will : HasWill args will

-- Memory of which enough is free
abbrev ample : Memory → Memory
ample mem = record mem { free_memory = emc_min_free_memory }

build-ample :
    (mem : Memory) (p : Packet) (rl : ℕ) (chunks : List (List ℕ))
    → build mem p rl false chunks ≡ build (ample mem) p rl false chunks
unfolding build allocate
build-ample mem p rl chunks = refl

create_connect-cases :
    (mem : Memory) (args : ConnectArgs) (a : IsConnectable args)
    → (create_connect mem args ≡ create_connect (ample mem) args)
      × (mem.malloc_succeeds ≡ false
          → create_connect mem args ≡ some (fresh_packet 0 none, out_of_memory))
unfolding create_connect_as
create_connect-cases mem args a =
    let (cs, run, w) = will_chunks-concat args a.will a.has_will in
    let named = create_connect_named mem args a.client_id a.named a.nonempty in
    let ample_named = create_connect_named (ample mem) args a.client_id a.named a.nonempty in
    (
      named
          ∙ (rw run (build-ample mem (fresh_packet 0 none) (connect_length args a.client_id) _))
          ∙ sym ample_named,
      λ e. named ∙ (rw run (build_fails mem 0 (connect_length args a.client_id) false _ (inl e))),
    )

pub create_connect-Makes :
    (mem : Memory) (args : ConnectArgs)
    → IsConnectable args
    → Makes greatest (create_connect mem args)
create_connect-Makes mem args a =
    let cases = create_connect-cases mem args a in
    elim (Bool-cases mem.malloc_succeeds) [
      | inr e ↦ ((fresh_packet 0 none, out_of_memory), cases.1 e, λ good. cc)
      | inl e ↦
          let body = connect_body args a.client_id a.will in
          let long = length-frame 0x10 body (
            length-connect_body args a.client_id a.will a.short_id a.short_username a.short_password
              a.has_will) in
          let made =
            create_connect-frame (ample mem) args a.client_id a.will
              (record { allocates = e; enough = omega arith }) a.named a.nonempty a.short_id
              a.short_username a.short_password a.will_qos a.has_will in
          (
            (packet_of 0 (frame 0x10 body), success),
            cases.0 ∙ made,
            λ good. record {
              bytes = frame 0x10 body;
              same = (0, refl);
              nonempty = omega (arith, long.0);
              short = long.1;
            },
          )
    ]
