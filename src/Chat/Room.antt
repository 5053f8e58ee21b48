-- ===== src/Chat/Room.antt =====
-- hw2/chatroom_server.c: the list of clients, and what is sent to them.
use csci_4220_network_progra.Base.{
  ℕ, ◌+◌, ◌-◌, Bool, false, ◌||◌, Option, none, some, List, [], ◌∷◌, ◌++◌, leb, ◌==◌, if◌then◌else◌,
  length, take,
}
use csci_4220_network_progra.CString.{same_caseless}

abbrev pub in_buf_size : ℕ
in_buf_size = 2048

-- `addr` is the address that `malloc` gave, which the code compares; a string stands without its
-- closing zero. `inbuf` is the whole array of `in_buf_size` bytes.
pub record Client : Type 0 where
  pub addr : ℕ
  pub fd : ℕ
  pub username : List ℕ
  pub inbuf : List ℕ
  pub inbuf_len : ℕ

-- The texts that go to one client.
pub data Notice : Type 0 where
  server_full welcome invalid_username ask_username invalid_command usage_me : Notice
  in_use start_chatting text : List ℕ → Notice

-- What a call does outside the list of clients: a text to a descriptor, a job pushed to
-- `bcast_queue`, or a closed descriptor.
pub data Effect : Type 0 where
  sent : ℕ → Notice → Effect
  queued : (sender_fd : ℕ) → (msg : List ℕ) → Effect
  closed : ℕ → Effect

pub record Room : Type 0 where
  pub clients : List Client
  pub current_clients : ℕ
  pub max_clients : ℕ

-- `accept` gives a descriptor or fails. `malloc` gives `addr`, with `inbuf` in the input buffer.
unfoldable pub handle_new_connection :
    Room → Option ℕ → (addr : ℕ) → (inbuf : List ℕ) → Room × List Effect
handle_new_connection r none addr inbuf = (r, [])
handle_new_connection r (some client_fd) addr inbuf =
    if leb r.max_clients r.current_clients
    then (r, sent client_fd server_full ∷ closed client_fd ∷ [])
    else (
      record r {
        clients =
            record { addr = addr; fd = client_fd; username = []; inbuf = inbuf; inbuf_len = 0 }
            ∷ r.clients;
        current_clients = r.current_clients + 1;
      },
      sent client_fd welcome ∷ [],
    )

-- The client at the address is unlinked.
unfoldable pub unlink : ℕ → List Client → List Client
unlink addr [] = []
unlink addr (c ∷ cs) = let rest = unlink addr cs in if c.addr == addr then cs else c ∷ rest

-- `exclude_fd` is `none` for -1.
unfoldable pub broadcast_message : List Client → List ℕ → Option ℕ → List Effect
broadcast_message [] msg exclude_fd = []
broadcast_message (c ∷ cs) msg exclude_fd =
    let rest = broadcast_message cs msg exclude_fd in
    let is_excluded : Bool = elim exclude_fd [ none ↦ false | some e ↦ c.fd == e ] in
    if is_excluded then rest else sent c.fd (text msg) ∷ rest

-- " has left the chat.\n"
abbrev pub has_left : List ℕ
has_left =
    32 ∷ 104 ∷ 97 ∷ 115 ∷ 32 ∷ 108 ∷ 101 ∷ 102 ∷ 116 ∷ 32 ∷ 116 ∷ 104 ∷ 101 ∷ 32 ∷ 99 ∷ 104 ∷ 97
    ∷ 116 ∷ 46 ∷ 10 ∷ []

unfoldable pub remove_client : Room → Client → Room × List Effect
remove_client r client =
    let rest = unlink client.addr r.clients in
    (
      record r { clients = rest; current_clients = r.current_clients - 1 },
      closed client.fd
          ∷ (if length client.username == 0
              then []
              else broadcast_message rest (take 255 (client.username ++ has_left)) none),
    )

unfoldable pub is_username_taken : List Client → List ℕ → Bool
is_username_taken [] username = false
is_username_taken (c ∷ cs) username =
    same_caseless c.username username || is_username_taken cs username
