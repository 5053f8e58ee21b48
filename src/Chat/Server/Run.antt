-- ===== src/Chat/Server/Run.antt =====
-- A round of the loop of `main`.
use csci_4220_network_progra.Base.{
  ℕ, ◌≡◌, ◌≢◌, refl, Option, none, some, List, [], ◌∷◌, ◌++◌, leb, length, All, All-imp, Bool-cases,
  inl, inr,
}
use csci_4220_network_progra.Chat.Room.{Client, handle_new_connection}
use csci_4220_network_progra.Chat.Lines.Split.{OnOneLine}
use csci_4220_network_progra.Chat.Serve.{IsRoom, connect, serve, serve-IsRoom}
use csci_4220_network_progra.Chat.Server.{Server, Out, broadcast_all, Arrival, admit, main_round}
use csci_4220_network_progra.Chat.Server.Clients.{Present}
use csci_4220_network_progra.Chat.Server.Round.{IsSound, CleanReads, serve_clients-Ready}

-- `malloc` gives an address that no client has. What it leaves in the buffer is not defined; here it
-- is 2048 bytes without a newline, the last of them zero, which the code needs and does not ensure.
pub record IsFresh (s : Server) (a : Arrival) : Type 0 where
  pub new : All (λ c. c.addr ≢ a.addr) s.room.clients
  pub tail : List ℕ
  pub inbuf_eq : a.inbuf ≡ tail ++ 0 ∷ []
  pub full : length a.inbuf ≡ 2048
  pub quiet : OnOneLine tail

abbrev pub FreshArrival : Server → Option Arrival → Type 0
FreshArrival s none = Unit
FreshArrival s (some a) = IsFresh s a

admit-IsSound :
    (s : Server) (arrival : Option Arrival)
    → FreshArrival s arrival
    → IsSound (s.room)
    → IsSound ((admit s arrival).server.room)
unfolding admit handle_new_connection serve
admit-IsSound s none f h = h
admit-IsSound s (some a) f h =
    by_accepted a.accepted f (serve-IsRoom s.room (connect a.accepted a.addr a.inbuf) h.room)
  where
    by_accepted :
        (accepted : Option ℕ)
        → IsFresh s a
        → IsRoom ((handle_new_connection s.room accepted a.addr a.inbuf).0)
        → IsSound ((handle_new_connection s.room accepted a.addr a.inbuf).0)
    by_accepted none f room = h
    by_accepted (some fd) f room =
        elim (Bool-cases (leb s.room.max_clients s.room.current_clients)) [
          | inl full ↦ rw (handle_new_connection, full) h
          | inr space ↦
              let room' = (rw (handle_new_connection, space) at room) in
              rw (handle_new_connection, space)
                (record {
                  room = room';
                  addrs = (f.new, h.addrs);
                  buffers = (
                    (
                      [],
                      record {
                        tail = f.tail;
                        inbuf_eq = f.inbuf_eq;
                        len_eq = refl;
                        full = f.full;
                        quiet = f.quiet;
                      },
                      tt,
                    ),
                    h.buffers,
                  );
                })
        ]

All-Present : (cs : List Client) → All (λ c. Present c.addr cs) cs
All-Present [] = tt
All-Present (c ∷ cs) = (inl refl, All-imp cs (λ d here. inr here) (All-Present cs))

pub main_round-IsSound :
    (s : Server) (arrival : Option Arrival) (reads : ℕ → Option (List ℕ))
    → IsSound (s.room)
    → FreshArrival s arrival
    → CleanReads reads
    → (o : Out) × (main_round s arrival reads ≡ some o) × IsSound (o.server.room)
unfolding main_round
main_round-IsSound s arrival reads h f clean =
    let a = admit s arrival in
    let sound = admit-IsSound s arrival f h in
    let (o, e, kept_sound) =
      serve_clients-Ready reads a.server.room.clients a.server clean (record {
        sound = sound;
        todo_apart = sound.addrs;
        todo_buffers = sound.buffers;
        todo_present = All-Present a.server.room.clients;
      }) in
    (
      record {
        server = record (o.server) { bcast_queue = [] };
        effects =
            a.effects ++ (o.effects ++ broadcast_all o.server.room.clients o.server.bcast_queue);
      },
      rw (main_round, e) refl,
      kept_sound,
    )
