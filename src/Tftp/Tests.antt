-- ===== src/Tftp/Tests.antt =====
-- The TFTP server on small files.
use csci_4220_network_progra.Base.{
  subst, false, none, some, ℕ, zero, suc, ◌+◌, ◌≡◌, refl, List, [], ◌∷◌, ◌++◌, All, arith, true,
}
use csci_4220_network_progra.Tftp.Packet.{
  Recv, datagram, timeout, data_packet, ack_packet, put16, get16, overlay,
}
use csci_4220_network_progra.Tftp.Wrq.{
  completed, timed_out, wrq_start, wrq_accept, wrq_datagram, wrq_timeout, wrq_recv, wrq_run,
}
use csci_4220_network_progra.Tftp.Wrq.Transfer.{
  Progress, chunk, nil, cons, block, late as delayed, timeouts, wrq_run-Progress, wrq_run-timeouts,
}
use csci_4220_network_progra.Tftp.Rrq.{
  finished, rrq_start, read_block, current_data, acknowledged, rrq_datagram, rrq_recv, rrq_run,
}
use csci_4220_network_progra.Tftp.Rrq.Even.{IsFull, rrq_run-IsFull}
use csci_4220_network_progra.Tftp.Rrq.Blocks.{IsBlock, rrq_run-IsBlock}
use csci_4220_network_progra.Tftp.Request.{Files}
use csci_4220_network_progra.CString.{same_caseless}
use csci_4220_network_progra.Tftp.Wrq.Awaited.{Arriving, block_of, last, late}
use csci_4220_network_progra.Tftp.Wrq.Complete.{wrq_run-completes}
use csci_4220_network_progra.Tftp.Rrq.Answers.{Answering, ack_of, to_last, silent}
use csci_4220_network_progra.Tftp.Rrq.Complete.{delivered}
use csci_4220_network_progra.Tftp.Request.{octet, handle_request, writing, reading}
use mathlib.Core.Option.{some-injective}
use csci_4220_network_progra.Tftp.Request.Shape.{Bytes, IsPacket}
use csci_4220_network_progra.Tftp.Request.Packets.{packets, handle_request-IsPacket}
use csci_4220_network_progra.Tftp.Request.Store.{request, handle_request-stores}

abbrev small_file : List ℕ
small_file = 7 ∷ 8 ∷ 9 ∷ []

-- A silence, and then the only block of the file.
abbrev arrivals : List Recv
arrivals = timeout ∷ datagram (data_packet (0 + 1) (chunk small_file 0)) ∷ []

abbrev zeros : ℕ → List ℕ
zeros zero = []
zeros (suc n) = 0 ∷ zeros n

wrq_completes :
    let (s, sent) = wrq_run (wrq_start []).0 arrivals in
    (s.phase ≡ completed) × (s.file ≡ small_file) × (sent ≡ ack_packet 0 ∷ ack_packet 1 ∷ [])
unfolding wrq_run wrq_start wrq_recv wrq_timeout wrq_datagram wrq_accept data_packet put16 get16
    overlay ack_packet
wrq_completes = (refl, refl, refl)

rrq_finishes :
    let (s, sent) = rrq_run (rrq_start [] small_file).0 (datagram (ack_packet 1) ∷ []) in
    (s.phase ≡ finished) × (sent ≡ [])
unfolding rrq_run rrq_start read_block current_data acknowledged rrq_datagram rrq_recv ack_packet
    put16 get16 overlay
rrq_finishes = (refl, refl)

wrq_run-Progress_example :
    let (s, _) = wrq_run (wrq_start []).0 arrivals in Progress small_file s.phase s.block s.file
wrq_run-Progress_example =
    wrq_run-Progress small_file [] arrivals (omega arith)
      (cons delayed (cons (block 0 (omega arith)) nil))

wrq_run-timeouts_example :
    ((wrq_run (wrq_start []).0 (timeouts 10)).0.phase ≡ timed_out)
    × ((wrq_run (wrq_start []).0 (timeouts 10)).0.removed ≡ true)
unfolding wrq_start
wrq_run-timeouts_example = wrq_run-timeouts (wrq_start []).0 9 refl refl

rrq_run-IsFull_example : All IsFull (
    (rrq_start [] (zeros 512)).1
    ++ (rrq_run (rrq_start [] (zeros 512)).0 (datagram (ack_packet 1) ∷ [])).1)
rrq_run-IsFull_example = rrq_run-IsFull [] (zeros 512) (datagram (ack_packet 1) ∷ []) 0 refl

rrq_run-IsBlock_example :
    All
      (IsBlock small_file)
      ((rrq_start [] small_file).1 ++ (rrq_run (rrq_start [] small_file).0 (timeout ∷ [])).1)
rrq_run-IsBlock_example = rrq_run-IsBlock [] small_file (timeout ∷ []) (omega arith)

-- The file after a silence, and an acknowledgement after a silence.
small_file-Arriving : Arriving small_file 0 0 (timeout ∷ block_of small_file 0 ∷ [])
small_file-Arriving = late 0 0 _ (omega arith) (last 0 1 [] (omega arith) (omega arith))

small_file-Answering : Answering small_file 0 0 (timeout ∷ ack_of 0 ∷ [])
small_file-Answering = silent 0 0 _ (omega arith) (to_last 0 1 [] (omega arith) (omega arith))

wrq_run-completes_example :
    ((wrq_run (wrq_start []).0 (timeout ∷ block_of small_file 0 ∷ [])).0.phase ≡ completed)
    × ((wrq_run (wrq_start []).0 (timeout ∷ block_of small_file 0 ∷ [])).0.file ≡ small_file)
wrq_run-completes_example = wrq_run-completes small_file [] _ (omega arith) small_file-Arriving

-- "f"
abbrev name : List ℕ
name = 102 ∷ []

-- No file is there, and any can be made.
abbrev empty_disk : Files
empty_disk = record { exists = λ _. false; can_create = λ _. true; contents = λ _. none }

-- The file that has been written is there.
abbrev full_disk : Files
full_disk = record {
  exists = λ _. true;
  can_create = λ _. true;
  contents = λ _. some ((wrq_run (wrq_start []).0 (timeout ∷ block_of small_file 0 ∷ [])).0.file);
}

handle_request-stores_example :
    let w = wrq_run (wrq_start []).0 (timeout ∷ block_of small_file 0 ∷ []) in
    let r = rrq_start [] small_file in
    let sent = rrq_run r.0 (timeout ∷ ack_of 0 ∷ []) in
    let t = wrq_run (wrq_start []).0 (delivered (r.1 ++ sent.1)) in
    (handle_request empty_disk [] 70 80 (request 2 name octet []) ≡ writing 70 name (wrq_start []))
    × (w.0.phase ≡ completed)
    × (w.0.file ≡ small_file)
    × (handle_request full_disk [] 70 80 (request 1 name octet []) ≡ reading 70 name r)
    × (sent.0.phase ≡ finished)
    × (t.0.phase ≡ completed)
    × (t.0.file ≡ small_file)
unfolding same_caseless
handle_request-stores_example =
    handle_request-stores empty_disk full_disk [] [] 70 80 name octet [] small_file _ _
      (omega arith) (record { bytes = (refl, tt); some_bytes = omega arith; short = omega arith })
      (record {
        bytes = (refl, (refl, (refl, (refl, (refl, tt)))));
        some_bytes = omega arith;
        short = omega arith;
      })
      refl refl refl refl (omega arith) small_file-Arriving small_file-Answering

-- A disk with the file under every name.
abbrev disk : Files
disk = record { exists = λ _. true; can_create = λ _. false; contents = λ _. some small_file }

disk-Bytes : (f content : List ℕ) → disk.contents f ≡ some content → Bytes content
disk-Bytes f content e = subst Bytes (some-injective small_file content e) (omega arith)

handle_request-IsPacket_example : All IsPacket (
    packets
      (handle_request disk [] 70 80 (request 1 name octet []))
      (ack_of 3 ∷ timeout ∷ ack_of 0 ∷ []))
handle_request-IsPacket_example =
    handle_request-IsPacket disk [] disk-Bytes 70 80 (request 1 name octet [])
      (ack_of 3 ∷ timeout ∷ ack_of 0 ∷ [])
