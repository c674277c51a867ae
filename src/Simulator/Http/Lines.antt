-- ===== src/Simulator/Http/Lines.antt =====
-- Splitting a response that is made of lines, and the words of a line.
use dst_demo.Prelude.{
  ℕ, ◌≡◌, refl, sym, ◌∙◌, ap, arith, false, none, List, [], ◌∷◌, ◌++◌, All, append_assoc,
  append-nil, ◌==◌,
}
use dst_demo.Text.{Text, strip_prefix, prepend, join}
use dst_demo.Text.Lines.{Lacks}
use dst_demo.Simulator.Http.{
  split_from, split_text, crlf, blank_line, is_whitespace, open_words, end_word, split_whitespace,
}
use dst_demo.Simulator.Http.Texts.{split_from_cons}

-- Without a carriage return.
abbrev pub IsLine : Text → Type 0
IsLine = Lacks 13

abbrev pub IsFull : Text → Type 0
IsFull [] = ⊥
IsFull (c ∷ s) = Unit

abbrev pub onto : Text → List Text → List Text
onto w [] = w ∷ []
onto w (v ∷ ws) = (w ++ v) ∷ ws

-- A separator that begins with a carriage return does not stand in a line.
line-onto :
    (sep w s : Text)
    → IsLine w
    → split_from (13 ∷ sep) 0 (w ++ s) ≡ onto w (split_from (13 ∷ sep) 0 s)
unfolding split_from strip_prefix
line-onto sep [] s h = let (v, vs, e) = split_from_cons (13 ∷ sep) 0 s in rw e refl
line-onto sep (c ∷ w) s h =
    let (v, vs, e) = split_from_cons (13 ∷ sep) 0 s in
    let other : (13 == c) ≡ false = ground arith in
    let rest : split_from (13 ∷ sep) 0 (w ++ s) ≡ (w ++ v) ∷ vs =
      line-onto sep w s h.1 ∙ ap (onto w) e in
    rw (split_from, other, rest, e) refl

-- The lines of a text that is made of them.
pub split_text-lines :
    (l : Text) (ls : List Text)
    → All IsLine (l ∷ ls)
    → split_text crlf (join crlf (l ∷ ls)) ≡ l ∷ ls
unfolding join split_from strip_prefix
split_text-lines l [] h =
    ap (split_text crlf) (sym (append-nil l))
    ∙ line-onto (10 ∷ []) l [] h.0
    ∙ ap (λ w. w ∷ []) (append-nil l)
split_text-lines l (v ∷ ls) h =
    line-onto (10 ∷ []) l (crlf ++ join crlf (v ∷ ls)) h.0
    ∙ ap (λ r. onto l ([] ∷ r)) (split_text-lines v ls h.1)
    ∙ ap (λ w. w ∷ v ∷ ls) (append-nil l)

join_full :
    (v : Text) (ls : List Text) (s : Text)
    → IsLine v
    → IsFull v
    → (d : ℕ) × (t : Text) × (join crlf (v ∷ ls) ++ s ≡ d ∷ t) × ((13 == d) ≡ false)
unfolding join
join_full [] ls s h f = elim f [ ]
join_full (d ∷ v) [] s h f = (d, _, refl, ground arith)
join_full (d ∷ v) (w ∷ ls) s h f = (d, _, refl, ground arith)

split_from-miss :
    (sep : Text) (c : ℕ) (s : Text)
    → strip_prefix sep (c ∷ s) ≡ none
    → split_from sep 0 (c ∷ s) ≡ prepend c (split_from sep 0 s)
unfolding split_from
split_from-miss sep c s e = rw (split_from, e) refl

-- A line's end before another line is not a blank line.
past_crlf :
    (d : ℕ) (t : Text)
    → (13 == d) ≡ false
    → split_from blank_line 0 (crlf ++ d ∷ t) ≡ onto crlf (split_from blank_line 0 (d ∷ t))
unfolding split_from strip_prefix
past_crlf d t h =
    let (v, vs, e) = split_from_cons blank_line 0 (d ∷ t) in
    split_from-miss blank_line 13 (10 ∷ d ∷ t) (rw h refl)
    ∙ ap (prepend 13) (split_from-miss blank_line 10 (d ∷ t) refl)
    ∙ ap (λ r. prepend 13 (prepend 10 r)) e
    ∙ ap (onto crlf) (sym e)

-- The first blank line ends the lines before it.
pub split_text-section :
    (l : Text) (ls : List Text) (body : Text)
    → All IsLine (l ∷ ls)
    → All IsFull (l ∷ ls)
    → split_text blank_line (join crlf (l ∷ ls) ++ (blank_line ++ body))
      ≡ join crlf (l ∷ ls) ∷ split_text blank_line body
unfolding join split_from strip_prefix
split_text-section l [] body h f =
    line-onto (10 ∷ crlf) l (blank_line ++ body) h.0
    ∙ ap (λ w. w ∷ split_text blank_line body) (append-nil l)
split_text-section l (v ∷ ls) body h f =
    let tail : Text = join crlf (v ∷ ls) ++ (blank_line ++ body) in
    let (d, t, e, other) = join_full v ls (blank_line ++ body) h.1.0 f.1.0 in
    let later : split_text blank_line (crlf ++ tail)
        ≡ (crlf ++ join crlf (v ∷ ls)) ∷ split_text blank_line body =
      ap (λ r. split_text blank_line (crlf ++ r)) e
      ∙ past_crlf d t other
      ∙ ap (λ r. onto crlf (split_text blank_line r)) (sym e)
      ∙ ap (onto crlf) (split_text-section v ls body h.1 f.1) in
    ap (split_text blank_line) (append_assoc l (crlf ++ join crlf (v ∷ ls)) (blank_line ++ body))
    ∙ line-onto (10 ∷ crlf) l (crlf ++ tail) h.0
    ∙ ap (onto l) later

abbrev pub IsWord : Text → Type 0
IsWord = All (λ c. is_whitespace c ≡ false)

open_words-word : (w s : Text) → IsWord w → open_words (w ++ b' ' ∷ s) ≡ w ∷ end_word (open_words s)
unfolding open_words
open_words-word [] s h = refl
open_words-word (c ∷ w) s h = rw (h.0, open_words-word w s h.1) refl

-- A word, a space and more.
pub split_whitespace-word :
    (w s : Text) → IsWord w → IsFull w → split_whitespace (w ++ b' ' ∷ s) ≡ w ∷ split_whitespace s
split_whitespace-word [] s h f = elim f [ ]
split_whitespace-word (c ∷ w) s h f = ap end_word (open_words-word (c ∷ w) s h)
