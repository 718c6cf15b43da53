-- ===== src/Transport/Server.antt =====
-- The call of connect in MqttClient::loop (src/MqttClient.cpp), over src/Transport/ClientPosix.cpp.
use esp_mqtt_client.Prelude.{
  ℕ, List, [], ◌∷◌, ◌++◌, Option, none, some, Bool, true, false, ◌==◌, ◌≡◌, ◌≢◌, refl, arith, All,
  ap,
}
use esp_mqtt_client.Client.{Client, OutgoingPacket}
use esp_mqtt_client.Client.Sending.{Answer, check_outbox, check_timeout}
use esp_mqtt_client.Client.Outgoing.{IsPlain}
use esp_mqtt_client.Client.SendError.{current_bytes, failed, send_error-stops}
use esp_mqtt_client.Setup.{Setup}
use esp_mqtt_client.Setup.Settings.{Server, by_ip, by_host, server, set_server_host}
use esp_mqtt_client.Transport.Posix.{
  System, ClientPosix, connect_ip, connect_host, host_to_ip, first_address, answer_of, write,
}

-- `_useIp ? _transport->connect(_ip, _port) : _transport->connect(_host, _port)`
unfoldable pub connect_to : System → Server → ClientPosix → ClientPosix × Bool
connect_to s (by_ip ip port) c = connect_ip s ip port c
connect_to s (by_host host port) c = connect_host s host port c

first_address-found :
    (htonl : ℕ → ℕ) (before : List ℕ) (a : ℕ) (after : List ℕ) (ip : ℕ)
    → All (λ b. htonl b ≡ 0) before
    → htonl a ≢ 0
    → first_address htonl (before ++ (a ∷ after)) ip ≡ htonl a
unfolding first_address
first_address-found htonl [] a after ip zeros found = ground arith
first_address-found htonl (b ∷ bs) a after ip zeros found =
    let zero_test : (htonl b == 0) ≡ true = ground (arith, zeros.0) in
    rw (first_address, zero_test) (first_address-found htonl bs a after (htonl b) zeros.1 found)

host_to_ip-found :
    (sys : System) (host : List ℕ) (a : ℕ) (before after : List ℕ)
    → sys.getaddrinfo (some host) ≡ some (before ++ (a ∷ after))
    → All (λ b. sys.htonl b ≡ 0) before
    → sys.htonl a ≢ 0
    → host_to_ip sys (some host) ≡ sys.htonl a
unfolding host_to_ip
host_to_ip-found sys host a before after found zeros some_ip =
    rw (host_to_ip, found) (first_address-found sys.htonl before a after 0 zeros some_ip)

connect_host-found :
    (sys : System) (host : Option (List ℕ)) (ip port : ℕ) (c : ClientPosix)
    → host_to_ip sys host ≡ ip
    → ip ≢ 0
    → connect_host sys host port c ≡ connect_ip sys ip port c
unfolding connect_host
connect_host-found sys host ip port c e some_ip =
    let test : (ip == 0) ≡ false = ground arith in
    rw (connect_host, e, test) (ap (λ x. connect_ip sys x port c) e)

-- The server that a user sets by host name is the one that is connected to: if getaddrinfo finds `a`
-- for it, behind results that are no IPv4 addresses, and htonl undoes itself and maps only 0 to 0, then
-- ::connect is called on the new socket with exactly the address `a` and the port in network order,
-- connect returns its result, and the address, the port and the socket are kept.
pub set_server_host-connect :
    (sys : System) (host : List ℕ) (port a : ℕ) (before after : List ℕ) (s : Setup)
    (c : ClientPosix)
    → sys.getaddrinfo (some host) ≡ some (before ++ (a ∷ after))
    → All (λ b. sys.htonl b ≡ 0) before
    → sys.htonl a ≢ 0
    → sys.htonl (sys.htonl a) ≡ a
    → (p : ClientPosix) × (connect_to sys (server (set_server_host (some host) port s)) c
        ≡ (p, sys.connects sys.socket a (sys.htons port)))
      × (p.sockfd ≡ sys.socket)
      × (p.address ≡ a)
      × (p.port ≡ sys.htons port)
unfolding connect_to server set_server_host connect_ip
set_server_host-connect sys host port a before after s c found zeros some_ip twice =
    let ip = host_to_ip-found sys host a before after found zeros some_ip in
    let run = connect_host-found sys (some host) (sys.htonl a) port c ip some_ip in
    (
      record (connect_ip sys (sys.htonl a) port c).0 { address = a },
      rw run (rw twice refl),
      refl,
      refl,
      refl,
    )

-- A failed ::send stops the outbox for good: when nothing of a filled packet of less than 2 GB has been
-- sent and ::send fails on it, _checkOutbox over this transport returns with _bytesSent at the largest
-- size_t; after that _checkOutbox sends and changes nothing, whatever the system answers, and
-- _checkTimeout does not make the cursor go back.
pub posix_send_error :
    (sys sys' : System) (sent active now : ℕ) (ws ws' : List Answer) (c : Client)
    (o : OutgoingPacket) (os : List OutgoingPacket)
    → c.outbox.pending ≡ o ∷ os
    → IsPlain o.packet
    → c.bytes_sent ≡ 0
    → sys.send (current_bytes o.packet) ≡ none
    → (check_outbox (answer_of sys sent active ∷ ws) c
        ≡ some (failed (answer_of sys sent active) c o os))
      × (check_outbox (answer_of sys' sent active ∷ ws') (failed (answer_of sys sent active) c o os)
          ≡ some (failed (answer_of sys sent active) c o os))
      × (check_timeout now (failed (answer_of sys sent active) c o os)
          ≡ failed (answer_of sys sent active) c o os)
unfolding write
posix_send_error sys sys' sent active now ws ws' c o os e h z fails =
    send_error-stops (answer_of sys sent active) ws c o os (answer_of sys' sent active) ws' now e h
      z (rw (write, fails) refl)
