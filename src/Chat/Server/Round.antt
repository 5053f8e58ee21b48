-- ===== src/Chat/Server/Round.antt =====
-- What the loop over the clients keeps.
use csci_4220_network_progra.Base.{
  ℕ, ◌+◌, ◌≡◌, ◌≢◌, refl, sym, ◌∙◌, Option, some, List, [], ◌∷◌, ◌++◌, ltb, ◌==◌, length, arith,
  All, All-imp, All-append, Bool-cases, inl, inr, ◌⊎◌, Option-cases, ltb→lt,
}
use csci_4220_network_progra.Chat.Queue.{Job}
use csci_4220_network_progra.Chat.Room.{Client, Room, unlink, remove_client}
use csci_4220_network_progra.Chat.Lines.{Received, removed, kept, handle_client_message}
use csci_4220_network_progra.Chat.Lines.Split.{IsClean, split, split-IsClean}
use csci_4220_network_progra.Chat.Lines.Call.{Holds, receive-Takes}
use csci_4220_network_progra.Chat.Process.Names.{unlink-NamesDiffer}
use csci_4220_network_progra.Chat.Serve.{IsRoom}
use csci_4220_network_progra.Chat.Server.{Server, Out, set_inbuf, serve_client, serve_clients}
use csci_4220_network_progra.Chat.Server.Clients.{
  BufferOk, AddrsApart, Present, All-unlink, All-set_inbuf, unlink-AddrsApart, set_inbuf-AddrsApart,
  set_inbuf-NamesDiffer, length-set_inbuf, length-unlink, unlink-Present, set_inbuf-Present,
}

-- The list is sound: names, addresses and buffers.
pub record IsSound (r : Room) : Type 0 where
  pub room : IsRoom r
  pub addrs : AddrsApart r.clients
  pub buffers : All BufferOk r.clients

-- A call on bytes without zeros removes the client or keeps its buffer in order.
abbrev Handled : Client → Received → Type 0
Handled c o =
    (o ≡ removed)
    ⊎ ((c' : Client) × (js : List Job) × (o ≡ kept c' js) × BufferOk c' × (c'.addr ≡ c.addr))

handle_client_message-Handled :
    (c : Client) (d : List ℕ) → BufferOk c → IsClean d → Handled c (handle_client_message c d)
unfolding handle_client_message
handle_client_message-Handled c d (p, h, clean_p) clean = elim (Bool-cases (length d == 0)) [
  | inl nothing ↦ inl (rw nothing refl)
  | inr something ↦ elim (Bool-cases (ltb (c.inbuf_len + length d) 2048)) [
    | inl fits ↦
        let t =
          receive-Takes c p d (ground arith)
            (omega (arith, ltb→lt (c.inbuf_len + length d) 2048 fits, h.len_eq)) clean_p clean h in
        inr (
          t.client,
          _,
          t.result,
          (
            (split (p ++ d)).partial,
            t.holds,
            split-IsClean (p ++ d) (All-append _ p d clean_p clean),
          ),
          t.same_addr,
        )
    | inr full ↦ inl (rw (something, full) refl)
  ]
]

-- What the loop over the clients keeps, with the clients that are still to come.
pub record Ready (todo : List Client) (s : Server) : Type 0 where
  pub sound : IsSound (s.room)
  pub todo_apart : AddrsApart todo
  pub todo_buffers : All BufferOk todo
  pub todo_present : All (λ c. Present c.addr s.room.clients) todo

remove_client-Ready :
    (s : Server) (c : Client) (cs : List Client)
    → Ready (c ∷ cs) s
    → Ready cs (record s { room = (remove_client s.room c).0 })
unfolding remove_client
remove_client-Ready s c cs h =
    let room = h.sound.room in
    let size = length-unlink c.addr s.room.clients h.todo_present.0 in
    record {
      sound = record {
        room = record {
          names = unlink-NamesDiffer c.addr s.room.clients room.names;
          counted = omega (arith, room.counted, size);
          bounded = omega (arith, room.bounded, size);
        };
        addrs = unlink-AddrsApart c.addr s.room.clients h.sound.addrs;
        buffers = All-unlink _ c.addr s.room.clients h.sound.buffers;
      };
      todo_apart = h.todo_apart.1;
      todo_buffers = h.todo_buffers.1;
      todo_present = still cs h.todo_apart.0 h.todo_present.1;
    }
  where
    still :
        (ds : List Client)
        → All (λ d. d.addr ≢ c.addr) ds
        → All (λ d. Present d.addr s.room.clients) ds
        → All (λ d. Present d.addr (unlink c.addr s.room.clients)) ds
    still [] ne p = tt
    still (d ∷ ds) ne p = (unlink-Present d.addr c.addr s.room.clients ne.0 p.0, still ds ne.1 p.1)

set_inbuf-Ready :
    (s : Server) (c c' : Client) (cs : List Client) (js : List Job)
    → BufferOk c'
    → Ready (c ∷ cs) s
    → Ready cs (record s {
      room = record (s.room) { clients = set_inbuf s.room.clients c' };
      job_queue = s.job_queue ++ js;
    })
set_inbuf-Ready s c c' cs js (p, ok, clean) h =
    let room = h.sound.room in
    let size = length-set_inbuf s.room.clients c' in
    record {
      sound = record {
        room = record {
          names = set_inbuf-NamesDiffer s.room.clients c' room.names;
          counted = room.counted ∙ sym size;
          bounded = omega (arith, room.bounded, size);
        };
        addrs = set_inbuf-AddrsApart s.room.clients c' h.sound.addrs;
        buffers =
            All-set_inbuf _ s.room.clients c' (λ d _. (p, same_buffer d, clean)) h.sound.buffers;
      };
      todo_apart = h.todo_apart.1;
      todo_buffers = h.todo_buffers.1;
      todo_present =
          All-imp cs (λ d here. set_inbuf-Present d.addr s.room.clients c' here) h.todo_present.1;
    }
  where
    same_buffer : (d : Client) → Holds (record d { inbuf = c'.inbuf; inbuf_len = c'.inbuf_len }) p
    same_buffer d = record {
      tail = ok.tail;
      inbuf_eq = ok.inbuf_eq;
      len_eq = ok.len_eq;
      full = ok.full;
      quiet = ok.quiet;
    }

-- One client is served.
serve_client-Ready :
    (s : Server) (c : Client) (cs : List Client) (d : List ℕ)
    → Ready (c ∷ cs) s
    → IsClean d
    → (o : Out) × (serve_client s c d ≡ some o) × Ready cs o.server
unfolding serve_client
serve_client-Ready s c cs d h clean =
    elim (handle_client_message-Handled c d h.todo_buffers.0 clean) [
      | inl gone ↦ (
        record {
          server = record s { room = (remove_client s.room c).0 };
          effects = (remove_client s.room c).1;
        },
        rw (serve_client, gone) refl,
        remove_client-Ready s c cs h,
      )
      | inr (c', js, stays, ok, same) ↦ (
        record {
          server = record s {
            room = record (s.room) { clients = set_inbuf s.room.clients c' };
            job_queue = s.job_queue ++ js;
          };
          effects = [];
        },
        rw (serve_client, stays) refl,
        set_inbuf-Ready s c c' cs js ok h,
      )
    ]

-- What `recv` gives holds no zero byte.
abbrev pub CleanReads : (ℕ → Option (List ℕ)) → Type 0
CleanReads reads = (fd : ℕ) (d : List ℕ) → reads fd ≡ some d → IsClean d

pub serve_clients-Ready :
    (reads : ℕ → Option (List ℕ)) (cs : List Client) (s : Server)
    → CleanReads reads
    → Ready cs s
    → (o : Out) × (serve_clients reads cs s ≡ some o) × IsSound (o.server.room)
unfolding serve_clients
serve_clients-Ready reads [] s clean h = (record { server = s; effects = [] }, refl, h.sound)
serve_clients-Ready reads (c ∷ cs) s clean h = elim (Option-cases (reads c.fd)) [
  | inl idle ↦
      let (o, e, sound) = serve_clients-Ready reads cs s clean (record {
        sound = h.sound;
        todo_apart = h.todo_apart.1;
        todo_buffers = h.todo_buffers.1;
        todo_present = h.todo_present.1;
      }) in
      (record o { effects = [] ++ o.effects }, rw (serve_clients, idle, e) refl, sound)
  | inr (d, got) ↦
      let (o, e, ready) = serve_client-Ready s c cs d h (clean c.fd d got) in
      let (p, f, sound) = serve_clients-Ready reads cs o.server clean ready in
      (record p { effects = o.effects ++ p.effects }, rw (serve_clients, got, e, f) refl, sound)
]
