-- ===== src/Simulator/Banker/Checked.antt =====
-- The server's replies are plain text, and pass what the banker asserts of them.
use dst_demo.Prelude.{
  ℕ, suc, ◌≡◌, ◌<◌, refl, arith, Bool, true, false, inl, inr, List, [], ◌∷◌, ◌||◌, All, All-append,
  map, length, Sublist, Sublist-length, Sublist-rest, leb,
}
use dst_demo.Prelude.Id.{ℤ, pos, negsuc}
use dst_demo.Text.{Text, codes, join}
use dst_demo.Text.Split.{text_eq_refl}
use dst_demo.Text.Lines.{Lacks, split-join}
use dst_demo.Text.Number.{show_ℕ, show_ℤ}
use dst_demo.Text.Number.RoundTrip.{IsDigit, show_ℕ-IsDigit}
use dst_demo.Outcome.{ok}
use dst_demo.Framing.Messages.{IsPlain}
use dst_demo.Transaction.{Transaction}
use dst_demo.Transaction.Display.{show_transaction}
use dst_demo.Transaction.Display.RoundTrip.{
  Fits, from_str-show, show_ℤ-Lacks, show_ℕ-Lacks, cents-Lacks,
}
use dst_demo.Platform.{Platform}
use dst_demo.Platform.Laws.{CentsLaws, AmountLaws}
use dst_demo.Simulator.Connection.{TcpStream}
use dst_demo.Simulator.Banker.{parse_all, has_amount, assert_amounts, check_list, check_reply}

-- Characters that are neither NUL nor outside ASCII.
abbrev IsCarried : ℕ → Type 0
IsCarried c = (0 < c) × (c < 128)

carried-IsPlain : (s : Text) → All IsCarried s → IsPlain s
carried-IsPlain [] h = (tt, tt)
carried-IsPlain (c ∷ s) (h, hs) =
    let (ascii, free) = carried-IsPlain s hs in ((omega arith, ascii), (ground arith, free))

words-IsCarried : (s : Text) → All (λ c. (32 < c) × (c < 128)) s → All IsCarried s
words-IsCarried [] h = tt
words-IsCarried (c ∷ s) (h, hs) = (omega arith, words-IsCarried s hs)

digits-IsCarried : (s : Text) → All IsDigit s → All IsCarried s
digits-IsCarried [] h = tt
digits-IsCarried (c ∷ s) (h, hs) = (omega arith, digits-IsCarried s hs)

show_ℤ-IsCarried : (z : ℤ) → All IsCarried (show_ℤ z)
unfolding show_ℤ
show_ℤ-IsCarried (pos n) = digits-IsCarried _ (show_ℕ-IsDigit n)
show_ℤ-IsCarried (negsuc n) = (omega arith, digits-IsCarried _ (show_ℕ-IsDigit (suc n)))

pub show_ℤ-IsPlain : (z : ℤ) → IsPlain (show_ℤ z)
show_ℤ-IsPlain z = carried-IsPlain _ (show_ℤ-IsCarried z)

module _ {D : Type 0} (p : Platform D) (cents : CentsLaws p) where
  show_transaction-IsCarried : (t : Transaction D) → All IsCarried (show_transaction p t)
  unfolding show_transaction
  show_transaction-IsCarried t = All-append IsCarried (codes "id=") _ (omega arith) (
      All-append IsCarried (show_ℤ t.id) _ (show_ℤ-IsCarried t.id) (
        All-append IsCarried (codes " created_at=") _ (omega arith) (
          All-append IsCarried (show_ℕ t.created_at) _
            (digits-IsCarried _ (show_ℕ-IsDigit t.created_at))
            (All-append IsCarried (codes " amount=$") _ (omega arith)
              (words-IsCarried _ (cents.ascii t.amount))))))

  pub show_transaction-IsPlain : (t : Transaction D) → IsPlain (show_transaction p t)
  show_transaction-IsPlain t = carried-IsPlain _ (show_transaction-IsCarried t)

  lines-IsCarried :
      (ts : List (Transaction D)) → All IsCarried (join (b'\n' ∷ []) (map (show_transaction p) ts))
  unfolding join
  lines-IsCarried [] = tt
  lines-IsCarried (t ∷ []) = show_transaction-IsCarried t
  lines-IsCarried (t ∷ u ∷ ts) =
      All-append IsCarried (show_transaction p t) _ (show_transaction-IsCarried t)
        (omega arith, lines-IsCarried (u ∷ ts))

  pub lines-IsPlain :
      (ts : List (Transaction D)) → IsPlain (join (b'\n' ∷ []) (map (show_transaction p) ts))
  lines-IsPlain ts = carried-IsPlain _ (lines-IsCarried ts)

  show_transaction-Lacks : (t : Transaction D) → Lacks b'\n' (show_transaction p t)
  unfolding show_transaction
  show_transaction-Lacks t = All-append _ (codes "id=") _ (ground arith) (
      All-append _ (show_ℤ t.id) _ (show_ℤ-Lacks b'\n' t.id (omega arith)) (
        All-append _ (codes " created_at=") _ (ground arith) (
          All-append _ (show_ℕ t.created_at) _ (show_ℕ-Lacks b'\n' t.created_at (omega arith)) (
            All-append _ (codes " amount=$") _ (ground arith)
              (cents-Lacks p cents b'\n' t.amount (omega arith))))))

  lines-Lacks : (ts : List (Transaction D)) → All (Lacks b'\n') (map (show_transaction p) ts)
  lines-Lacks [] = tt
  lines-Lacks (t ∷ ts) = (show_transaction-Lacks t, lines-Lacks ts)

  abbrev pub rounded : Transaction D → Transaction D
  rounded t = record t { amount = cents.round t.amount }

  parse_all-show :
      (ts : List (Transaction D))
      → All Fits ts
      → parse_all p (map (show_transaction p) ts) ≡ ok (map rounded ts)
  unfolding parse_all
  parse_all-show [] h = refl
  parse_all-show (t ∷ ts) (h, hs) = rw (from_str-show p cents t h, parse_all-show ts hs) refl

  module _ (amounts : AmountLaws p cents) where
    pub show_amount-IsPlain : (a : D) → IsPlain (p.show_amount a)
    show_amount-IsPlain a = carried-IsPlain _ (words-IsCarried _ (amounts.ascii a))

    or_true : (a b : Bool) → b ≡ true → (a || b) ≡ true
    or_true true b h = refl
    or_true false b h = h

    -- What is in the log is in the list that was read back.
    has_amount-Sublist :
        (a : D) (wanted : List D) (ts : List (Transaction D))
        → Sublist (a ∷ wanted) (map (λ t. t.amount) ts)
        → has_amount p a (map rounded ts) ≡ true
    unfolding has_amount
    has_amount-Sublist a wanted [] h = absurd h
    has_amount-Sublist a wanted (t ∷ ts) (inl (e, h)) =
        rw (amounts.rounded t.amount, e, text_eq_refl (p.show_cents t.amount)) refl
    has_amount-Sublist a wanted (t ∷ ts) (inr h) = or_true _ _ (has_amount-Sublist a wanted ts h)

    assert_amounts-Sublist :
        (wanted : List D) (ts : List (Transaction D)) (stream : TcpStream)
        → Sublist wanted (map (λ t. t.amount) ts)
        → assert_amounts p wanted (map rounded ts) stream ≡ (ok tt, stream)
    unfolding assert_amounts
    assert_amounts-Sublist [] ts stream h = refl
    assert_amounts-Sublist (a ∷ wanted) ts stream h =
        rw (has_amount-Sublist a wanted ts h)
          (assert_amounts-Sublist wanted ts stream (Sublist-rest a wanted _ h))

    length-map : {A B : Type 0} (f : A → B) (xs : List A) → length (map f xs) ≡ length xs
    length-map f [] = refl
    length-map f (x ∷ xs) = omega (arith, length-map f xs)

    check_list-passes :
        (wanted : List D) (t : Transaction D) (ts : List (Transaction D)) (stream : TcpStream)
        → All Fits (t ∷ ts)
        → Sublist wanted (map (λ t. t.amount) (t ∷ ts))
        → check_list p wanted (join (b'\n' ∷ []) (map (show_transaction p) (t ∷ ts))) stream
          ≡ (ok tt, stream)
    unfolding check_list
    check_list-passes wanted t ts stream h s =
        let whole =
          split-join b'\n' (show_transaction p t) (map (show_transaction p) ts)
            (lines-Lacks (t ∷ ts)) in
        let enough : leb (length wanted) (length (map rounded (t ∷ ts))) ≡ true = ground (
          arith,
          Sublist-length wanted _ s,
          length-map rounded ts,
          length-map (λ (t : Transaction D). t.amount) ts,
        ) in
        rw (whole, parse_all-show (t ∷ ts) h, enough)
          (assert_amounts-Sublist wanted (t ∷ ts) stream s)

    check_reply-of :
        (wanted : List D) (message : Text) (stream : TcpStream)
        → check_list p wanted message stream ≡ (ok tt, stream)
        → check_reply p wanted message stream ≡ (ok tt, stream)
    check_reply-of wanted [] stream h = refl
    check_reply-of wanted (c ∷ s) stream h = h

    -- The list of a log that holds the amounts, in their order, passes the check on it.
    pub check_reply-passes :
        (wanted : List D) (ts : List (Transaction D)) (stream : TcpStream)
        → All Fits ts
        → Sublist wanted (map (λ t. t.amount) ts)
        → check_reply p wanted (join (b'\n' ∷ []) (map (show_transaction p) ts)) stream
          ≡ (ok tt, stream)
    unfolding join
    check_reply-passes wanted [] stream h s = refl
    check_reply-passes wanted (t ∷ ts) stream h s =
        check_reply-of wanted _ stream (check_list-passes wanted t ts stream h s)
