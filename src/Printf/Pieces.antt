-- ===== src/Printf/Pieces.antt =====
-- A format as a list of pieces, and what each piece shows.
use cse508_operating_system.Prelude.{
  ℕ, ◌+◌, ◌%◌, ◌^◌, ◌≤◌, ◌<◌, ◌≡◌, ◌≢◌, refl, ap, ◌∙◌, sym, some, List, [], ◌∷◌, arith, length,
  false, ◌==◌, u8, u32, ◌>>=◌,
}
use cse508_operating_system.Text.{Bytes, sign_extend}
use cse508_operating_system.Text.Strings.{IsString}
use cse508_operating_system.Printf.{
  Sink, Printing, int_to_u64, put_one, put_number, put_string, convert, directive,
}
use cse508_operating_system.Printf.Numerals.{Numeral, text_at_lem, put_number_lem}

-- A character of its own, the conversions %c, %d, %x, %p and %s with their arguments, and another
-- character behind %.
pub data Piece : Type 0 where
  plain : (c : ℕ) → Piece
  character : (v : ℕ) → Piece
  decimal : (v : ℕ) → Piece
  hex : (v : ℕ) → Piece
  pointer : (v : ℕ) → Piece
  string : (str : ℕ) (text : List ℕ) → Piece
  other : (d : ℕ) → Piece

-- The letter behind %, and the argument; only the first piece has no %.
abbrev pub source : Piece → List ℕ
source (plain c) = c ∷ []
source (character v) = b'%' ∷ b'c' ∷ []
source (decimal v) = b'%' ∷ b'd' ∷ []
source (hex v) = b'%' ∷ b'x' ∷ []
source (pointer v) = b'%' ∷ b'p' ∷ []
source (string str text) = b'%' ∷ b's' ∷ []
source (other d) = b'%' ∷ d ∷ []

abbrev pub args : Piece → List ℕ
args (plain c) = []
args (character v) = v ∷ []
args (decimal v) = v ∷ []
args (hex v) = v ∷ []
args (pointer v) = v ∷ []
args (string str text) = str ∷ []
args (other d) = []

-- The fuel is enough for the numbers and the strings, strings stand where their argument says, and a
-- character of its own is not %.
abbrev pub Fits : ℕ → Bytes → Piece → Type 0
Fits fuel mem (plain c) = (c ≢ b'%') × (c < 256)
Fits fuel mem (character v) = Unit {0}
Fits fuel mem (decimal v) = int_to_u64 v + 17 < fuel
Fits fuel mem (hex v) = int_to_u64 v + 17 < fuel
Fits fuel mem (pointer v) = v + 17 < fuel
Fits fuel mem (string str text) = IsString mem str text × (length text < fuel)
Fits fuel mem (other d) = (d ≢ b'c') × (d ≢ b'd') × (d ≢ b'x') × (d ≢ b's') × (d ≢ b'p') × (d < 256)

-- What a piece shows: numbers of type `int` as 64-bit numbers without a sign.
abbrev pub Shows : Piece → List ℕ → Type 0
Shows (plain c) text = text ≡ c ∷ []
Shows (character v) text = text ≡ v % 2 ^ 8 ∷ []
Shows (decimal v) text = Numeral (int_to_u64 v) 10 text
Shows (hex v) text = Numeral (int_to_u64 v) 16 text
Shows (pointer v) text = Numeral v 16 text
Shows (string str xs) text = text ≡ xs
Shows (other d) text = text ≡ d ∷ []

-- What a piece adds to `total`: the value of a character, nothing for a string.
abbrev pub counted : Piece → ℕ → ℕ
counted (plain c) total = u32 (total + sign_extend c)
counted (character v) total = u32 (total + u32 v)
counted (decimal v) total = total
counted (hex v) total = total
counted (pointer v) total = total
counted (string str text) total = total
counted (other d) total = u32 (total + sign_extend d)

-- A character is printed as a byte, and a string character by character.
pub record IsSink {S : Type 0} (sink : Sink S) : Type 0 where
  pub bytes : (s : S) (ch : ℕ) → sink.put_char s ch ≡ sink.put_char s (u8 ch)
  pub nil : (s : S) → sink.put_text s [] ≡ s
  pub cons :
      (s : S) (c : ℕ) (cs : List ℕ)
      → sink.put_text s (c ∷ cs) ≡ sink.put_text (sink.put_char s c) cs

sign_extend_byte : (c : ℕ) → c < 256 → u8 (sign_extend c) ≡ c
unfolding sign_extend
sign_extend_byte c lt = ground arith

module _ {S : Type 0} (sink : Sink S) (ok : IsSink sink) where
  one_char : (s : S) (ch c : ℕ) → u8 ch ≡ c → sink.put_char s ch ≡ sink.put_text s (c ∷ [])
  one_char s ch c e =
      ok.bytes s ch
      ∙ ap (sink.put_char s) e
      ∙ sym (ok.nil (sink.put_char s c))
      ∙ sym (ok.cons s c [])

  -- What is behind one piece.
  pub record Step (piece : Piece) (p : Printing S) (rest : List ℕ) (q : Printing S) (text : List ℕ)
      : Type 0 where
    pub shows : Shows piece text
    pub state : q.state ≡ sink.put_text p.state text
    pub params : q.params ≡ rest
    pub total : q.total ≡ counted piece p.total

  abbrev pub Steps :
      (fuel : ℕ) (mem : Bytes) (d : ℕ) (piece : Piece) (p : Printing S) (rest : List ℕ) → Type 0
  Steps fuel mem d piece p rest =
      (q : Printing S) × (text : List ℕ) × (directive sink fuel mem p d ≡ some q)
      × Step piece p rest q text

  pub plain-Step :
      (p : Printing S) (c : ℕ) (rest : List ℕ)
      → c < 256
      → p.params ≡ rest
      → Step (plain c) p rest (put_one sink p (sign_extend c)) (c ∷ [])
  unfolding put_one
  plain-Step p c rest lt e = record {
    shows = refl;
    state = one_char p.state (sign_extend c) c (sign_extend_byte c lt);
    params = e;
    total = refl;
  }

  pub other-Steps :
      (fuel : ℕ) (mem : Bytes) (p : Printing S) (d : ℕ) (rest : List ℕ)
      → Fits fuel mem (other d)
      → p.params ≡ rest
      → Steps fuel mem d (other d) p rest
  unfolding directive put_one
  other-Steps fuel mem p d rest (nc, nd, nx, ns, np, lt) e =
      let ec : (d == b'c') ≡ false = ground arith in
      let ed : (d == b'd') ≡ false = ground arith in
      let ex : (d == b'x') ≡ false = ground arith in
      let es : (d == b's') ≡ false = ground arith in
      let ep : (d == b'p') ≡ false = ground arith in
      (
        put_one sink p (sign_extend d),
        d ∷ [],
        rw (ec, ed, ex, es, ep) refl,
        record {
          shows = refl;
          state = one_char p.state (sign_extend d) d (sign_extend_byte d lt);
          params = e;
          total = refl;
        },
      )

  pub character-Steps :
      (fuel : ℕ) (mem : Bytes) (p : Printing S) (v : ℕ) (rest : List ℕ)
      → p.params ≡ v ∷ rest
      → Steps fuel mem b'c' (character v) p rest
  unfolding directive convert put_one
  character-Steps fuel mem p v rest e = (
    put_one sink (record p { params = rest }) (u32 v),
    v % 2 ^ 8 ∷ [],
    rw e refl,
    record {
      shows = refl;
      state = one_char p.state (u32 v) (v % 2 ^ 8) (omega arith);
      params = refl;
      total = refl;
    },
  )

  pub string-Steps :
      (fuel : ℕ) (mem : Bytes) (p : Printing S) (v : ℕ) (xs rest : List ℕ)
      → IsString mem v xs
      → length xs < fuel
      → p.params ≡ v ∷ rest
      → Steps fuel mem b's' (string v xs) p rest
  unfolding directive convert put_string
  string-Steps fuel mem p v xs rest str enough e = (
    record p { state = sink.put_text p.state xs; params = rest },
    xs,
    rw (e, text_at_lem fuel mem v xs str enough, ◌>>=◌) refl,
    record { shows = refl; state = refl; params = refl; total = refl },
  )

  -- The three conversions of numbers.
  pub number_steps :
      (fuel : ℕ) (mem : Bytes) (p : Printing S) (d v value base : ℕ) (rest : List ℕ)
      → 2 ≤ base
      → base ≤ 16
      → value + 17 < fuel
      → directive sink fuel mem p d ≡ put_number sink fuel (record p { params = rest }) value base
      → (q : Printing S) × (text : List ℕ) × (directive sink fuel mem p d ≡ some q)
        × Numeral value base text
        × (q.state ≡ sink.put_text p.state text)
        × (q.params ≡ rest)
        × (q.total ≡ p.total)
  number_steps fuel mem p d v value base rest two sixteen enough call =
      let (text, buffer', ret, numeral) =
        put_number_lem sink fuel (record p { params = rest }) value base two sixteen enough in
      (
        record p { state = sink.put_text p.state text; buffer = buffer'; params = rest },
        text,
        call ∙ ret,
        numeral,
        refl,
        refl,
        refl,
      )
