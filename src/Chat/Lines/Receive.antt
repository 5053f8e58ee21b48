-- ===== src/Chat/Lines/Receive.antt =====
-- A client's stream of bytes, cut into reads in any way, gives the jobs of its lines.
use mathlib.Core.List.{append_assoc, append-nil}
use csci_4220_network_progra.Base.{
  ℕ, ◌+◌, ◌≡◌, ◌≤◌, ◌<◌, refl, sym, ap, subst, ◌∙◌, List, [], ◌∷◌, ◌++◌, length, map, take_all,
  All-imp, All, All-append, lt→ltb,
}
use csci_4220_network_progra.Chat.Queue.{Job}
use csci_4220_network_progra.Chat.Room.{Client}
use csci_4220_network_progra.Chat.Lines.{line_job, kept, receive_all}
use csci_4220_network_progra.Chat.Lines.Split.{
  Lines, split, before, split-append, split-encode, split_partial, encode, IsClean, OnOneLine,
  split-OnOneLine, split-IsClean, without_cr,
}
use csci_4220_network_progra.Chat.Lines.Stream.{jobs_of}
use csci_4220_network_progra.Chat.Lines.Call.{Holds, Takes, receive-Takes}

jobs_of-append :
    (fd : ℕ) (u : List ℕ) (a b : List (List ℕ))
    → jobs_of fd u (a ++ b) ≡ jobs_of fd u a ++ jobs_of fd u b
jobs_of-append fd u [] b = refl
jobs_of-append fd u (l ∷ a) b =
    ap (λ (js : List Job). line_job fd u (without_cr l) ++ js) (jobs_of-append fd u a b)
    ∙ sym (append_assoc (line_job fd u (without_cr l)) (jobs_of fd u a) (jobs_of fd u b))

-- Every read has bytes, none of them zero, and fits behind the partial line that the reads before it
-- leave.
abbrev pub Fits : List ℕ → List (List ℕ) → Type 0
Fits p [] = Unit
Fits p (d ∷ ds) =
    (0 < length d) × (length p + length d < 2048) × IsClean d × Fits (split (p ++ d)).partial ds

abbrev pub join : List (List ℕ) → List ℕ
join [] = []
join (d ∷ ds) = d ++ join ds

receive_all-Takes :
    (c : Client) (p : List ℕ) (ds : List (List ℕ))
    → IsClean p
    → OnOneLine p
    → Fits p ds
    → Holds c p
    → Takes c.addr c.fd c.username (split (p ++ join ds)) (receive_all c ds)
unfolding receive_all
receive_all-Takes c p [] clean one f h = record {
  client = c;
  result = ap (kept c) (ap (λ (l : Lines). jobs_of c.fd c.username l.complete) (sym alone));
  same_addr = refl;
  same_fd = refl;
  same_username = refl;
  holds = subst (λ (l : Lines). Holds c l.partial) (sym alone) h;
}
  where
    alone : split (p ++ []) ≡ record { complete = []; partial = p }
    alone = ap split (append-nil p) ∙ split_partial p one
receive_all-Takes c p (d ∷ ds) clean one f h =
    let first = receive-Takes c p d f.0 f.1 clean f.2 h in
    let s = split (p ++ d) in
    let later =
      receive_all-Takes first.client s.partial ds
        (split-IsClean (p ++ d) (All-append _ p d clean f.2)) (split-OnOneLine (p ++ d)) f.3
        first.holds in
    let whole : split (p ++ join (d ∷ ds)) ≡ before s.complete (split (s.partial ++ join ds)) =
      ap split (sym (append_assoc p d (join ds))) ∙ split-append (p ++ d) (join ds) in
    let more = (rw (first.same_addr, first.same_fd, first.same_username) at later) in
    rw (whole, receive_all, first.result, more.result)
      (record {
        client = more.client;
        result = ap (kept more.client) (
            sym
              (jobs_of-append c.fd c.username s.complete (split (s.partial ++ join ds)).complete));
        same_addr = more.same_addr;
        same_fd = more.same_fd;
        same_username = more.same_username;
        holds = more.holds;
      })

-- For any reads that fit into the buffer and hold no zero byte, however the stream is cut into them:
-- no call reads or writes outside the buffer, the jobs are those of the lines of the whole stream, in
-- order, and the buffer holds what stands behind its last newline. The buffer is one in which, at the
-- start, no byte is a newline and the last is zero.
pub receive_all-split :
    (c : Client) (ds : List (List ℕ))
    → Holds c []
    → Fits [] ds
    → Takes c.addr c.fd c.username (split (join ds)) (receive_all c ds)
receive_all-split c ds h f = receive_all-Takes c [] ds tt tt f h

-- A line that comes through whole.
pub record IsLine (l : List ℕ) : Type 0 where
  pub some_bytes : 0 < length l
  pub short : length l ≤ 1023
  pub one_line : OnOneLine l
  pub no_cr : without_cr l ≡ l

jobs_of-msg :
    (fd : ℕ) (u : List ℕ) (ls : List (List ℕ))
    → All IsLine ls
    → map (λ (j : Job). j.msg) (jobs_of fd u ls) ≡ ls
unfolding line_job
jobs_of-msg fd u [] h = refl
jobs_of-msg fd u (l ∷ ls) h =
    rw
      (
        h.0.no_cr,
        lt→ltb 0 (length l) h.0.some_bytes,
        take_all 1023 l h.0.short,
        jobs_of-msg fd u ls h.1,
      )
      refl

-- Lines that a client sends, each with a newline behind it, come back as the messages of the jobs, in
-- whatever pieces they arrive, and nothing is left in the buffer. A line has 1 to 1023 bytes, none of
-- them zero or a newline, and no carriage return at its end.
pub receive_all-encode :
    (c : Client) (ds ls : List (List ℕ))
    → Holds c []
    → Fits [] ds
    → All IsLine ls
    → join ds ≡ encode ls
    → (c' : Client) × (js : List Job) × (receive_all c ds ≡ kept c' js)
      × (map (λ (j : Job). j.msg) js ≡ ls)
      × (c'.inbuf_len ≡ 0)
receive_all-encode c ds ls h f lines whole =
    let t = receive_all-split c ds h f in
    let parts : split (join ds) ≡ record { complete = ls; partial = [] } =
      ap split whole ∙ split-encode ls (All-imp ls (λ l i. i.one_line) lines) in
    let t' = (rw parts at t) in
    (
      t'.client,
      jobs_of c.fd c.username ls,
      t'.result,
      jobs_of-msg c.fd c.username ls lines,
      t'.holds.len_eq,
    )
