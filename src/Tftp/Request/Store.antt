-- ===== src/Tftp/Request/Store.antt =====
-- From a request to the file, and back.
use csci_4220_network_progra.Base.{
  ℕ, suc, ◌+◌, ◌*◌, ◌≡◌, ◌≤◌, ◌<◌, refl, ◌∙◌, ap, Bool, true, false, ◌||◌, some, List, [], ◌∷◌,
  ◌++◌, leb, ◌==◌, length, drop, arith, All, le→ltb-false,
}
use csci_4220_network_progra.CString.{is_space, same_caseless, skip_spaces, word}
use csci_4220_network_progra.Tftp.Packet.{get16, Recv}
use csci_4220_network_progra.Tftp.Wrq.{completed, wrq_start, wrq_run}
use csci_4220_network_progra.Tftp.Wrq.Awaited.{Arriving}
use csci_4220_network_progra.Tftp.Wrq.Complete.{wrq_run-completes}
use csci_4220_network_progra.Tftp.Rrq.{finished, rrq_start, rrq_run}
use csci_4220_network_progra.Tftp.Rrq.Answers.{Answering}
use csci_4220_network_progra.Tftp.Rrq.Complete.{delivered, rrq_run-wrq_run}
use csci_4220_network_progra.Tftp.Request.{
  scan_word, octet, parse_request, Files, writing, reading, handle_wrq, handle_rrq, handle_request,
}

-- No byte ends a word for `sscanf`.
abbrev pub InWord : ℕ → Type 0
InWord c = (c == 0 || is_space c) ≡ false

-- A word that fits into an array of `size` bytes.
pub record Fits (size : ℕ) (w : List ℕ) : Type 0 where
  pub bytes : All InWord w
  pub some_bytes : 0 < length w
  pub short : length w < size

word-append : (w rest : List ℕ) → All InWord w → word (w ++ 0 ∷ rest) ≡ w
unfolding word
word-append [] rest h = refl
word-append (c ∷ w) rest h = rw (h.0, word-append w rest h.1) refl

or-false : (a b : Bool) → (a || b) ≡ false → b ≡ false
or-false true b h = cc
or-false false b h = h

skip_spaces-word :
    (w rest : List ℕ) → All InWord w → 0 < length w → skip_spaces (w ++ rest) ≡ w ++ rest
unfolding skip_spaces
skip_spaces-word [] rest h some_bytes = absurd (omega arith)
skip_spaces-word (c ∷ w) rest h some_bytes = rw (or-false (c == 0) (is_space c) h.0) refl

scan_word-append :
    (size : ℕ) (w rest : List ℕ) → Fits size w → scan_word size (w ++ 0 ∷ rest) ≡ some w
unfolding scan_word
scan_word-append size w rest h =
    let found : word (skip_spaces (w ++ 0 ∷ rest)) ≡ w =
      rw (skip_spaces-word w (0 ∷ rest) h.bytes h.some_bytes) (word-append w rest h.bytes) in
    let enough : (length w == 0) ≡ false = let n = h.some_bytes in ground arith in
    let fits : leb size (length w) ≡ false = let n = h.short in ground arith in
    simp (scan_word, found, enough, fits)

-- A request, with what the buffer holds behind it.
abbrev pub request : (op : ℕ) → (filename mode junk : List ℕ) → List ℕ
request op filename mode junk = 0 ∷ op ∷ (filename ++ 0 ∷ (mode ++ 0 ∷ junk))

drop-word : (w rest : List ℕ) → drop (suc (length w)) (w ++ 0 ∷ rest) ≡ rest
drop-word [] rest = refl
drop-word (c ∷ w) rest = drop-word w rest

parse_request-request :
    (op : ℕ) (filename mode junk : List ℕ)
    → Fits 128 filename
    → Fits 32 mode
    → parse_request (request op filename mode junk) ≡ some (filename, mode)
unfolding parse_request
parse_request-request op filename mode junk named moded =
    let behind : drop (2 + length filename + 1) (request op filename mode junk) ≡ mode ++ 0 ∷ junk =
      ap (λ (n : ℕ). drop n (request op filename mode junk)) {x = 2 + length filename + 1}
        {y = suc (suc (suc (length filename)))} (omega arith)
      ∙ drop-word filename (mode ++ 0 ∷ junk) in
    simp (
      parse_request,
      scan_word-append 128 filename (mode ++ 0 ∷ junk) named,
      behind,
      scan_word-append 32 mode junk moded,
    )

module _ (files : Files) (buf : List ℕ) (port end_port : ℕ) (filename mode junk : List ℕ)
    (ports : port ≤ end_port) (named : Fits 128 filename) (moded : Fits 32 mode)
    (is_octet : same_caseless mode octet ≡ true) where
  handle_request-write :
      files.exists filename ≡ false
      → files.can_create filename ≡ true
      → handle_request files buf port end_port (request 2 filename mode junk)
        ≡ writing port filename (wrq_start buf)
  unfolding handle_request handle_wrq get16
  handle_request-write new creates = simp (
    handle_request,
    handle_wrq,
    le→ltb-false end_port port ports,
    parse_request-request 2 filename mode junk named moded,
    is_octet,
    new,
    creates,
  )

  handle_request-read :
      {content : List ℕ}
      → files.contents filename ≡ some content
      → handle_request files buf port end_port (request 1 filename mode junk)
        ≡ reading port filename (rrq_start buf content)
  unfolding handle_request handle_rrq get16
  handle_request-read there = simp (
    handle_request,
    handle_rrq,
    le→ltb-false end_port port ports,
    parse_request-request 1 filename mode junk named moded,
    is_octet,
    there,
  )

-- A file is stored and read back. A client asks in mode octet to write a file that is not there, and
-- sends fewer than 65535 * 512 bytes, whose number is no multiple of 512, or nothing, block by block
-- over a network that repeats and delays; later a client asks to read it and acknowledges the blocks.
-- The name and the mode are words that fit into their arrays. `after` is the file system when it gives
-- back what has been written. Then each request starts its transfer, the first completes with the
-- client's bytes in the file, and the second ends, and what it sends brings the same bytes to a
-- receiver that works as the server does.
pub handle_request-stores :
    (before after : Files) (buf to : List ℕ) (port end_port : ℕ)
    (filename mode junk content : List ℕ) (blocks answers : List Recv)
    → port ≤ end_port
    → Fits 128 filename
    → Fits 32 mode
    → same_caseless mode octet ≡ true
    → before.exists filename ≡ false
    → before.can_create filename ≡ true
    → after.contents filename ≡ some ((wrq_run (wrq_start buf).0 blocks).0.file)
    → length content < 512 * 65535
    → Arriving content 0 0 blocks
    → Answering content 0 0 answers
    → let w = wrq_run (wrq_start buf).0 blocks in
      let r = rrq_start buf content in
      let t = wrq_run (wrq_start to).0 (delivered (r.1 ++ (rrq_run r.0 answers).1)) in
      (handle_request before buf port end_port (request 2 filename mode junk)
        ≡ writing port filename (wrq_start buf))
      × (w.0.phase ≡ completed)
      × (w.0.file ≡ content)
      × (handle_request after buf port end_port (request 1 filename mode junk)
          ≡ reading port filename r)
      × ((rrq_run r.0 answers).0.phase ≡ finished)
      × (t.0.phase ≡ completed)
      × (t.0.file ≡ content)
handle_request-stores before after buf to port end_port filename mode junk content blocks answers
      ports named moded is_octet new creates there small arriving answering =
    let (completes, file) = wrq_run-completes content buf blocks small arriving in
    let (finishes, received, same) = rrq_run-wrq_run content buf to answers small answering in
    (
      handle_request-write before buf port end_port filename mode junk ports named moded is_octet
          new creates,
      completes,
      file,
      handle_request-read after buf port end_port filename mode junk ports named moded is_octet
          (there ∙ ap some file),
      finishes,
      received,
      same,
    )
