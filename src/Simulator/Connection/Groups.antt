-- ===== src/Simulator/Connection/Groups.antt =====
-- Replies that come one at a time, each in chunks of its own: what a client that reads each with a
-- fresh buffer needs.
use dst_demo.Prelude.{
  ◌≡◌, refl, sym, ◌∙◌, ap, arith, inl, inr, List, [], ◌∷◌, ◌++◌, All, All-append, All-append_left,
  All-append_right, append_assoc, append-nil,
}
use dst_demo.Text.{Text, Bytes}
use dst_demo.Text.Split.{position-Found}
use dst_demo.Text.Utf8.RoundTrip.{IsAscii, from_utf8-ascii}
use dst_demo.Framing.{bytes, failed, Reader, message, is_nul, read_loop, frame}
use dst_demo.Framing.Chunks.{NulFree, stream, first_nul, not-NulFree, regroup, round-eq}
use dst_demo.Framing.Messages.{IsPlain, frame-plain}
use dst_demo.Outcome.{◌>>=◌}
use dst_demo.Outcome.Laws.{>>=-returns}
use dst_demo.Simulator.Connection.{ClientAction, received, receive, open_stream}
use dst_demo.Simulator.Reply.{read_fresh, read_reply}

-- Reads that each bring something.
abbrev pub IsLive : Reader → Type 0
IsLive [] = Unit
IsLive (failed ∷ r) = ⊥
IsLive (bytes [] ∷ r) = ⊥
IsLive (bytes (b ∷ bs) ∷ r) = IsLive r

-- The reads to come bring these messages, each in chunks of its own, and then `after`.
abbrev pub Brings : List Text → Reader → Reader → Type 0
Brings [] after r = r ≡ after
Brings (m ∷ ms) after r =
    (group : Reader) × (later : Reader) × (r ≡ group ++ later)
    × IsLive group
    × (stream group ≡ frame m)
    × Brings ms after later

at_end : (r : Reader) → IsLive r → stream r ≡ [] → r ≡ []
unfolding stream
at_end [] l e = refl
at_end (failed ∷ r) l e = elim l [ ]
at_end (bytes [] ∷ r) l e = elim l [ ]
at_end (bytes (b ∷ bs) ∷ r) l e = ground arith

append_nil_right : (xs ys : Text) → xs ++ ys ≡ [] → ys ≡ []
append_nil_right [] ys e = e
append_nil_right (x ∷ xs) ys e = ground arith

read_loop-group :
    (buffer m : Text) (group later : Reader)
    → IsLive group
    → NulFree buffer
    → NulFree m
    → All IsAscii (stream group)
    → buffer ++ stream group ≡ m ++ 0 ∷ []
    → read_loop buffer (group ++ later) ≡ (message m, [], later)
unfolding read_loop stream
read_loop-group buffer m [] later l hb hm a e =
    absurd (not-NulFree m [] (rw (← e) (rw (append-nil buffer) hb)))
read_loop-group buffer m (failed ∷ group) later l hb hm a e = elim l [ ]
read_loop-group buffer m (bytes [] ∷ group) later l hb hm a e = elim l [ ]
read_loop-group buffer m (bytes (b ∷ bs) ∷ group) later l hb hm a e =
    let value : Text = b ∷ bs in
    let plain = All-append_left IsAscii value (stream group) a in
    let rest = All-append_right IsAscii value (stream group) a in
    elim (position-Found is_nul value) [
      | inl (miss, clear) ↦
          rw (from_utf8-ascii value plain, miss, read_loop)
            (read_loop-group (buffer ++ value) m group later l (All-append _ buffer value hb clear)
              hm rest (append_assoc buffer value (stream group) ∙ e))
      | inr (i, hit, f) ↦
          let (same, left) =
            first_nul (buffer ++ f.front) m (f.back ++ stream group) []
              (All-append _ buffer f.front hb f.absent) hm
              (sym (regroup buffer value i f (stream group)) ∙ e) in
          let done : group ≡ [] = at_end group l (append_nil_right f.back (stream group) left) in
          let over : f.back ≡ [] =
            sym (append-nil f.back) ∙ ap (λ r. f.back ++ stream r) (sym done) ∙ left in
          rw (from_utf8-ascii value plain, hit, read_loop)
            (round-eq buffer value i f (group ++ later) plain ∙ rw (same, over, done) refl)
    ]

-- A call with a fresh buffer reads one group whole, and no more than it.
pub read_fresh-group :
    (m : Text) (group later : Reader)
    → IsPlain m
    → IsLive group
    → stream group ≡ frame m
    → read_fresh (group ++ later) ≡ (message m, [], later)
unfolding read_reply
read_fresh-group m group later plain l e =
    let whole : stream group ≡ m ++ 0 ∷ [] = e ∙ frame-plain m plain.0 in
    let ascii : All IsAscii (stream group) =
      rw whole (All-append IsAscii m (0 ∷ []) plain.0 (omega arith, tt)) in
    read_loop-group [] m group later l tt plain.1 ascii whole

-- A chain whose first call receives a message goes on with that message.
pub receives :
    {B : Type 0} (f : Text → ClientAction B) (m : Text) (group later r : Reader) (c : Bytes)
    → IsPlain m
    → r ≡ group ++ later
    → IsLive group
    → stream group ≡ frame m
    → (receive >>= f) (open_stream r c) ≡ f m (open_stream later c)
unfolding receive
receives f m group later r c plain e live whole = >>=-returns receive f (open_stream r c) (
    ap (λ v. received (read_fresh v) (open_stream r c)) e
    ∙ ap (λ v. received v (open_stream r c)) (read_fresh-group m group later plain live whole))
