-- ===== src/Printf/Loop.antt =====
-- A whole format of sys/write.c, piece by piece.
use cse508_operating_system.Prelude.{
  ℕ, suc, ◌+◌, ◌≤◌, ◌<◌, ◌≡◌, refl, ap, ◌∙◌, sym, some, List, [], ◌∷◌, ◌++◌, arith, ◌>>=◌,
}
use cse508_operating_system.Text.{Bytes}
use cse508_operating_system.Printf.{
  Sink, Printing, int_to_u64, put_number, convert, directive, format_loop,
}
use cse508_operating_system.Printf.Numerals.{Numeral}
use cse508_operating_system.Printf.Pieces.{
  Piece, decimal, hex, pointer, source, args, Fits, Shows, counted, IsSink, Step, Steps,
  number_steps,
}

abbrev pub source_all : List Piece → List ℕ
source_all [] = []
source_all (x ∷ xs) = source x ++ source_all xs

abbrev pub args_all : List Piece → List ℕ
args_all [] = []
args_all (x ∷ xs) = args x ++ args_all xs

abbrev pub FitsAll : ℕ → Bytes → List Piece → Type 0
FitsAll fuel mem [] = Unit {0}
FitsAll fuel mem (x ∷ xs) = Fits fuel mem x × FitsAll fuel mem xs

-- The text is what the pieces show, one behind the other.
abbrev pub ShowsAll : List Piece → List ℕ → Type 0
ShowsAll [] text = text ≡ []
ShowsAll (x ∷ xs) text =
    (first : List ℕ) × (rest : List ℕ) × (text ≡ first ++ rest) × Shows x first × ShowsAll xs rest

abbrev pub counted_all : List Piece → ℕ → ℕ
counted_all [] total = total
counted_all (x ∷ xs) total = counted_all xs (counted x total)

-- What a format has printed when its loop ends.
pub record Printed {S : Type 0} (sink : Sink S) (pieces : List Piece) (p : Printing S)
    (rest : List ℕ) (q : Printing S) : Type 0 where
  pub text : List ℕ
  pub shows : ShowsAll pieces text
  pub state : q.state ≡ sink.put_text p.state text
  pub params : q.params ≡ rest
  pub total : q.total ≡ counted_all pieces p.total

module _ {S : Type 0} (sink : Sink S) (ok : IsSink sink) where
  pub put_text-append :
      (s : S) (xs ys : List ℕ) → sink.put_text s (xs ++ ys) ≡ sink.put_text (sink.put_text s xs) ys
  put_text-append s [] ys = rw (ok.nil s) refl
  put_text-append s (x ∷ xs) ys =
      ok.cons s x (xs ++ ys)
      ∙ put_text-append (sink.put_char s x) xs ys
      ∙ ap (λ (t : S). sink.put_text t ys) (sym (ok.cons s x xs))

  pub Printed-cons :
      (x : Piece) (xs : List Piece) (p q r : Printing S) (rest : List ℕ) (text : List ℕ)
      → Step sink ok x p (args_all xs ++ rest) q text
      → Printed sink xs q rest r
      → Printed sink (x ∷ xs) p rest r
  Printed-cons x xs p q r rest text step done = record {
    text = text ++ done.text;
    shows = (text, done.text, refl, step.shows, done.shows);
    state =
        done.state
        ∙ ap (λ (t : S). sink.put_text t done.text) step.state
        ∙ sym (put_text-append p.state text done.text);
    params = done.params;
    total = done.total ∙ ap (counted_all xs) step.total;
  }

  number_Step :
      (x : Piece) (fuel : ℕ) (mem : Bytes) (p : Printing S) (d v value base : ℕ) (rest : List ℕ)
      → ((text : List ℕ) → Numeral value base text → Shows x text)
      → counted x p.total ≡ p.total
      → 2 ≤ base
      → base ≤ 16
      → value + 17 < fuel
      → directive sink fuel mem p d ≡ put_number sink fuel (record p { params = rest }) value base
      → Steps sink ok fuel mem d x p rest
  number_Step x fuel mem p d v value base rest shows uncounted two sixteen enough call =
      let (q, text, ret, numeral, state, params, total) =
        number_steps sink ok fuel mem p d v value base rest two sixteen enough call in
      (
        q,
        text,
        ret,
        record {
          shows = shows text numeral;
          state = state;
          params = params;
          total = total ∙ sym uncounted;
        },
      )

  pub decimal-Steps :
      (fuel : ℕ) (mem : Bytes) (p : Printing S) (v : ℕ) (rest : List ℕ)
      → int_to_u64 v + 17 < fuel
      → p.params ≡ v ∷ rest
      → Steps sink ok fuel mem b'd' (decimal v) p rest
  unfolding directive convert
  decimal-Steps fuel mem p v rest enough e =
      number_Step (decimal v) fuel mem p b'd' v (int_to_u64 v) 10 rest (λ text n. n) refl
        (omega arith) (omega arith) enough (rw e refl)

  pub hex-Steps :
      (fuel : ℕ) (mem : Bytes) (p : Printing S) (v : ℕ) (rest : List ℕ)
      → int_to_u64 v + 17 < fuel
      → p.params ≡ v ∷ rest
      → Steps sink ok fuel mem b'x' (hex v) p rest
  unfolding directive convert
  hex-Steps fuel mem p v rest enough e =
      number_Step (hex v) fuel mem p b'x' v (int_to_u64 v) 16 rest (λ text n. n) refl (omega arith)
        (omega arith) enough (rw e refl)

  pub pointer-Steps :
      (fuel : ℕ) (mem : Bytes) (p : Printing S) (v : ℕ) (rest : List ℕ)
      → v + 17 < fuel
      → p.params ≡ v ∷ rest
      → Steps sink ok fuel mem b'p' (pointer v) p rest
  unfolding directive convert
  pointer-Steps fuel mem p v rest enough e =
      number_Step (pointer v) fuel mem p b'p' v v 16 rest (λ text n. n) refl (omega arith)
        (omega arith) enough (rw e refl)

  -- One round of the loop at %.
  pub special_round :
      (x : Piece) (xs : List Piece) (rounds fuel : ℕ) (mem : Bytes) (str d : ℕ) (p : Printing S)
      (rest : List ℕ)
      → mem str ≡ b'%'
      → mem (str + 1) ≡ d
      → Steps sink ok fuel mem d x p (args_all xs ++ rest)
      → ((q : Printing S)
          → q.params ≡ args_all xs ++ rest
          → (r : Printing S) × (format_loop sink rounds fuel mem (str + 2) q ≡ some r)
            × Printed sink xs q rest r)
      → (r : Printing S) × (format_loop sink (suc rounds) fuel mem str p ≡ some r)
        × Printed sink (x ∷ xs) p rest r
  unfolding format_loop
  special_round x xs rounds fuel mem str d p rest at at1 (q, text, ret, step) ih =
      let (r, later, done) = ih q step.params in
      (r, rw (at, at1, ret, ◌>>=◌) later, Printed-cons x xs p q r rest text step done)
