-- ===== src/Transport/Posix.antt =====
-- src/Transport/ClientPosix.cpp and ClientPosixIPAddress.cpp: the transport on Linux.
use esp_mqtt_client.Prelude.{
  ℕ, ◌+◌, ◌-◌, ◌*◌, ◌^◌, List, [], ◌∷◌, Option, none, some, Bool, true, false, ◌==◌,
}
use esp_mqtt_client.Config.{size_mod}
use esp_mqtt_client.Client.Sending.{Answer}

-- What the operating system answers to the calls of one operation; `none` is -1, or an error of
-- getaddrinfo. `connects` is given the descriptor, the address and the port of ::connect.
pub record System : Type 0 where
  pub socket : Option ℕ
  pub connects : Option ℕ → ℕ → ℕ → Bool
  pub send : List ℕ → Option ℕ
  pub recv : ℕ → Option (List ℕ)
  pub getaddrinfo : Option (List ℕ) → Option (List ℕ)
  pub htonl : ℕ → ℕ
  pub htons : ℕ → ℕ

-- `sockfd` is none where the member is negative. `opened` lists the descriptors that the object has
-- opened and not closed.
pub record ClientPosix : Type 0 where
  pub sockfd : Option ℕ
  pub address : ℕ
  pub port : ℕ
  pub opened : List ℕ

abbrev pub new_client_posix : ClientPosix
new_client_posix = record { sockfd = none; address = 0; port = 0; opened = [] }

-- ::close
unfoldable pub close : ℕ → List ℕ → List ℕ
close fd [] = []
close fd (x ∷ xs) = elim (x == fd) [ true ↦ xs | false ↦ x ∷ close fd xs ]

abbrev pub is_connected : ClientPosix → Bool
is_connected c = elim c.sockfd [ none ↦ false | some fd ↦ true ]

abbrev pub is_disconnected : ClientPosix → Bool
is_disconnected c = elim c.sockfd [ none ↦ true | some fd ↦ false ]

unfoldable pub stop : ClientPosix → ClientPosix
unfolding close
stop c = elim c.sockfd [
  | none ↦ c
  | some fd ↦ record c { sockfd = none; opened = close fd c.opened }
]

-- ::socket adds a descriptor
abbrev pub opening : Option ℕ → List ℕ → List ℕ
opening none opened = opened
opening (some fd) opened = fd ∷ opened

-- connect with an address; the client and the result
unfoldable pub connect_ip : System → ℕ → ℕ → ClientPosix → ClientPosix × Bool
unfolding stop
connect_ip s ip port c =
    let c1 : ClientPosix = elim (is_connected c) [ true ↦ stop c | false ↦ c ] in
    (
      record c1 {
        sockfd = s.socket;
        address = s.htonl ip;
        port = s.htons port;
        opened = opening s.socket c1.opened;
      },
      s.connects s.socket (s.htonl ip) (s.htons port),
    )

-- The loop of _hostToIP; `ip` is returnIP.
unfoldable pub first_address : (htonl : ℕ → ℕ) → List ℕ → ℕ → ℕ
first_address htonl [] ip = ip
first_address htonl (a ∷ as_) ip = elim (htonl a == 0) [
  | false ↦ htonl a
  | true ↦ first_address htonl as_ (htonl a)
]

-- _hostToIP
unfoldable pub host_to_ip : System → Option (List ℕ) → ℕ
unfolding first_address
host_to_ip s host = elim (s.getaddrinfo host) [
  | none ↦ 0
  | some found ↦ first_address s.htonl found 0
]

-- connect with a host name
unfoldable pub connect_host : System → Option (List ℕ) → ℕ → ClientPosix → ClientPosix × Bool
unfolding host_to_ip connect_ip
connect_host s host port c = elim (host_to_ip s host == 0) [
  | true ↦ (c, false)
  | false ↦ connect_ip s (host_to_ip s host) port c
]

-- write: the ssize_t of ::send as a size_t
unfoldable pub write : System → List ℕ → ℕ
write s bytes = elim (s.send bytes) [ none ↦ size_mod - 1 | some n ↦ n ]

-- read, as _checkIncoming uses its result: nothing where it is not positive
unfoldable pub read : System → ℕ → List ℕ
read s size = elim (s.recv size) [ none ↦ [] | some bytes ↦ bytes ]

-- What this transport answers to a call of _sendPacket
abbrev pub answer_of : System → ℕ → ℕ → Answer
answer_of s time_sent time_active = record {
  accepts = write s;
  time_sent = time_sent;
  time_active = time_active;
}

-- IPAddress of four bytes, of which none overlaps another
unfoldable pub ip_address : ℕ → ℕ → ℕ → ℕ → ℕ
ip_address p0 p1 p2 p3 = p0 * 2 ^ 24 + p1 * 2 ^ 16 + p2 * 2 ^ 8 + p3
