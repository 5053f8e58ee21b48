-- ===== src/Tftp/Request/Packets.antt =====
-- The packets that the server sends, whatever it is sent.
use csci_4220_network_progra.Base.{
  ℕ, zero, suc, ◌+◌, ◌%◌, ◌^◌, ◌≤◌, ◌≡◌, true, some, List, [], ◌∷◌, ◌++◌, ltb, ◌==◌, length, take,
  drop, arith, All, All-append, Bool-cases, Option-cases, inl, inr, length-take,
}
use csci_4220_network_progra.CString.{same_caseless}
use csci_4220_network_progra.Tftp.Packet.{data_size, get16, Recv}
use csci_4220_network_progra.Tftp.Wrq.{wrq_start, wrq_run}
use csci_4220_network_progra.Tftp.Rrq.{
  sending, Rrq, is_nil, current_data, read_block, rrq_start, acknowledged, rrq_run,
}
use csci_4220_network_progra.Tftp.Rrq.Rule.{Kept, run-Kept}
use csci_4220_network_progra.Tftp.Request.{
  octet, only_octet, file_exists, cannot_create, file_not_found, invalid_operation, parse_request,
  Files, Session, no_port, undefined, refused, writing, reading, handle_wrq, handle_rrq,
  handle_request,
}
use csci_4220_network_progra.Tftp.Request.Shape.{
  Bytes, IsPacket, ack_packet-IsPacket, data_packet-IsPacket, error_packet-IsPacket,
  wrq_run-IsPacket,
}

-- The loops of `handle_rrq`: what is loaded, and what is left of the file.
record Loaded (s : Rrq) : Type 0 where
  chunk_bytes : Bytes s.chunk
  chunk_short : length s.chunk ≤ 512
  rest_bytes : Bytes s.rest

All-take : (n : ℕ) (xs : List ℕ) → Bytes xs → Bytes (take n xs)
All-take zero xs h = tt
All-take (suc n) [] h = tt
All-take (suc n) (x ∷ xs) h = (h.0, All-take n xs h.1)

All-drop : (n : ℕ) (xs : List ℕ) → Bytes xs → Bytes (drop n xs)
All-drop zero xs h = h
All-drop (suc n) [] h = tt
All-drop (suc n) (x ∷ xs) h = All-drop n xs h.1

read_block-Loaded : (s : Rrq) → Loaded s → Loaded (read_block s).0 × All IsPacket (read_block s).1
unfolding read_block current_data
read_block-Loaded s l =
    let c = take 512 s.rest in
    let short : length c ≤ 512 = omega (arith, length-take 512 s.rest) in
    let bytes = All-take 512 s.rest l.rest_bytes in
    let sent = data_packet-IsPacket s.block c bytes short in
    let rest = All-drop 512 s.rest l.rest_bytes in
    elim (Bool-cases (is_nil c)) [
      | inl none_left ↦ elim (Bool-cases s.at_start) [
        | inl first ↦
            rw (none_left, first)
              (record { chunk_bytes = bytes; chunk_short = short; rest_bytes = rest }, (sent, tt))
        | inr later ↦
            rw (none_left, later)
              (
                record {
                  chunk_bytes = l.chunk_bytes;
                  chunk_short = l.chunk_short;
                  rest_bytes = l.rest_bytes;
                },
                tt,
              )
      ]
      | inr more ↦
          rw more
            (record { chunk_bytes = bytes; chunk_short = short; rest_bytes = rest }, (sent, tt))
    ]

acknowledged-Loaded :
    (s : Rrq) → Loaded s → Loaded (acknowledged s).0 × All IsPacket (acknowledged s).1
unfolding acknowledged
acknowledged-Loaded s l = elim (Bool-cases (ltb (length s.chunk) data_size)) [
  | inl short ↦ rw short (
    record { chunk_bytes = l.chunk_bytes; chunk_short = l.chunk_short; rest_bytes = l.rest_bytes },
    tt,
  )
  | inr whole ↦ rw whole (
      read_block-Loaded (record s { block = (s.block + 1) % 2 ^ 16 })
        (record {
          chunk_bytes = l.chunk_bytes;
          chunk_short = l.chunk_short;
          rest_bytes = l.rest_bytes;
        }))
]

Kept-Loaded : Kept Loaded IsPacket
Kept-Loaded = record {
  current = λ s on l. data_packet-IsPacket s.block s.chunk l.chunk_bytes l.chunk_short;
  control = λ s b l. record {
    chunk_bytes = l.chunk_bytes;
    chunk_short = l.chunk_short;
    rest_bytes = l.rest_bytes;
  };
  retry = λ s n l. record {
    chunk_bytes = l.chunk_bytes;
    chunk_short = l.chunk_short;
    rest_bytes = l.rest_bytes;
  };
  stop = λ s ph off l. record {
    chunk_bytes = l.chunk_bytes;
    chunk_short = l.chunk_short;
    rest_bytes = l.rest_bytes;
  };
  ack = λ s on l. acknowledged-Loaded s l;
}

rrq_run-IsPacket :
    (buf content : List ℕ) (es : List Recv)
    → Bytes content
    → All IsPacket ((rrq_start buf content).1 ++ (rrq_run (rrq_start buf content).0 es).1)
unfolding rrq_start
rrq_run-IsPacket buf content es h =
    let (loaded, sent) =
      read_block-Loaded
        (record {
          phase = sending;
          block = 1;
          retries = 0;
          buf = buf;
          chunk = [];
          rest = content;
          at_start = true;
        })
        (record { chunk_bytes = tt; chunk_short = omega arith; rest_bytes = h }) in
    All-append IsPacket _ _ sent (run-Kept Kept-Loaded _ es loaded)

-- What a session sends, over what `recv` returns in it.
unfoldable pub packets : Session → List Recv → List (List ℕ)
unfolding wrq_run rrq_run
packets no_port es = []
packets undefined es = []
packets (refused port packet) es = packet ∷ []
packets (writing port filename (s, first)) es = first ++ (wrq_run s es).1
packets (reading port filename (s, first)) es = first ++ (rrq_run s es).1

module _ (files : Files) (buf : List ℕ)
    (read : (f content : List ℕ) → files.contents f ≡ some content → Bytes content) where
  handle_wrq-IsPacket :
      (port : ℕ) (m : List ℕ) (es : List Recv)
      → All IsPacket (packets (handle_wrq files buf port m) es)
  unfolding handle_wrq packets wrq_start
  handle_wrq-IsPacket port m es = elim (Option-cases (parse_request m)) [
    | inl n ↦ rw (handle_wrq, n) tt
    | inr ((filename, mode), e) ↦ elim (Bool-cases (same_caseless mode octet)) [
      | inl o ↦ elim (Bool-cases (files.exists filename)) [
        | inl x ↦
            rw (handle_wrq, e, o, x)
              (error_packet-IsPacket 6 file_exists (omega arith) (omega arith), tt)
        | inr x ↦ elim (Bool-cases (files.can_create filename)) [
          | inl c ↦ rw (handle_wrq, e, o, x, c) (ack_packet-IsPacket 0, wrq_run-IsPacket _ es)
          | inr c ↦
              rw (handle_wrq, e, o, x, c)
                (error_packet-IsPacket 2 cannot_create (omega arith) (omega arith), tt)
        ]
      ]
      | inr o ↦
          rw (handle_wrq, e, o) (error_packet-IsPacket 4 only_octet (omega arith) (omega arith), tt)
    ]
  ]

  handle_rrq-IsPacket :
      (port : ℕ) (m : List ℕ) (es : List Recv)
      → All IsPacket (packets (handle_rrq files buf port m) es)
  unfolding handle_rrq packets
  handle_rrq-IsPacket port m es = elim (Option-cases (parse_request m)) [
    | inl n ↦ rw (handle_rrq, n) tt
    | inr ((filename, mode), e) ↦ elim (Bool-cases (same_caseless mode octet)) [
      | inl o ↦ elim (Option-cases (files.contents filename)) [
        | inl x ↦
            rw (handle_rrq, e, o, x)
              (error_packet-IsPacket 1 file_not_found (omega arith) (omega arith), tt)
        | inr (content, x) ↦
            rw (handle_rrq, e, o, x) (rrq_run-IsPacket buf content es (read filename content x))
      ]
      | inr o ↦
          rw (handle_rrq, e, o) (error_packet-IsPacket 0 only_octet (omega arith) (omega arith), tt)
    ]
  ]

  -- Whatever the request is, and whatever comes back: every packet of the session consists of bytes,
  -- fits into the 516 bytes of a packet, and is a DATA, ACK or ERROR packet, if the files hold bytes.
  -- A request on which the C code is undefined sends nothing here.
  pub handle_request-IsPacket :
      (port end_port : ℕ) (m : List ℕ) (es : List Recv)
      → All IsPacket (packets (handle_request files buf port end_port m) es)
  unfolding handle_request packets
  handle_request-IsPacket port end_port m es = elim (Bool-cases (ltb end_port port)) [
    | inl over ↦ rw over tt
    | inr within ↦ elim (Bool-cases (get16 m == 1)) [
      | inl r ↦ rw (within, r) (handle_rrq-IsPacket port m es)
      | inr n ↦ elim (Bool-cases (get16 m == 2)) [
        | inl w ↦ rw (within, n, w) (handle_wrq-IsPacket port m es)
        | inr o ↦
            rw (within, n, o)
              (error_packet-IsPacket 4 invalid_operation (omega arith) (omega arith), tt)
      ]
    ]
  ]
