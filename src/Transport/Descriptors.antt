-- ===== src/Transport/Descriptors.antt =====
-- The socket that src/Transport/ClientPosix.cpp holds, over sequences of its calls.
use esp_mqtt_client.Prelude.{ℕ, List, [], ◌∷◌, Option, ◌≡◌, refl, arith}
use esp_mqtt_client.Transport.Posix.{
  System, ClientPosix, new_client_posix, close, stop, opening, connect_ip, connect_host, host_to_ip,
}

-- The calls that change the object
pub data Call : Type 0 where
  connect_to_ip : System → ℕ → ℕ → Call
  connect_to_host : System → Option (List ℕ) → ℕ → Call
  stopping : Call

unfoldable pub call : Call → ClientPosix → ClientPosix
unfolding connect_ip connect_host stop
call (connect_to_ip s ip port) c = (connect_ip s ip port c).0
call (connect_to_host s host port) c = (connect_host s host port c).0
call stopping c = stop c

unfoldable pub calls : List Call → ClientPosix → ClientPosix
calls [] c = c
calls (x ∷ xs) c = calls xs (call x c)

abbrev pub Owns : ClientPosix → Type 0
Owns c = c.opened ≡ opening c.sockfd []

stop-empty : (c : ClientPosix) → Owns c → (stop c).opened ≡ []
unfolding stop close
stop-empty c h = ground arith

connect_ip-Owns :
    (s : System) (ip port : ℕ) (c : ClientPosix) → Owns c → Owns (connect_ip s ip port c).0
unfolding connect_ip stop close
connect_ip-Owns s ip port c h = ground arith

call-Owns : (x : Call) (c : ClientPosix) → Owns c → Owns (call x c)
unfolding call connect_host stop close
call-Owns (connect_to_ip s ip port) c h = connect_ip-Owns s ip port c h
call-Owns (connect_to_host s host port) c h =
    ground (arith, connect_ip-Owns s (host_to_ip s host) port c h)
call-Owns stopping c h = ground arith

calls-Owns : (xs : List Call) (c : ClientPosix) → Owns c → Owns (calls xs c)
unfolding calls
calls-Owns [] c h = h
calls-Owns (x ∷ xs) c h = calls-Owns xs (call x c) (call-Owns x c h)

-- No descriptor leaks: from the new object on, after any sequence of calls of connect, with an address
-- or a host name, and stop, whatever the system answers, the only descriptor that is open is the one in
-- `_sockfd`, and none is open after the stop of the destructor.
pub calls-opened :
    (xs : List Call)
    → ((calls xs new_client_posix).opened ≡ opening (calls xs new_client_posix).sockfd [])
      × ((stop (calls xs new_client_posix)).opened ≡ [])
calls-opened xs =
    let owns = calls-Owns xs new_client_posix refl in
    (owns, stop-empty (calls xs new_client_posix) owns)
