-- ===== src/CallbackUrl/Bytes.antt =====
-- Byte strings, and the searches of Go's package strings that callback_url_util.go makes.
use Prim.Native.Char.{code}
use pocket_id.Prelude.{
  ℕ, zero, suc, ◌+◌, ◌*◌, ◌-◌, ◌<◌, ◌∙◌, all, ◌/◌, ◌%◌, ◌≤◌, String, Bool, true, false, not, ◌&&◌,
  ◌≡◌, ◌↔◌, refl, arith, Option, none, some, List, [], ◌∷◌, ◌++◌, take, drop, eqb, leb, ltb,
  if◌then◌else◌, Bool-cases, inl, inr,
}

abbrev pub Bytes : Type 0
Bytes = List ℕ

abbrev pub bytes : String → Bytes
bytes String.[] = []
bytes (String.◌∷◌ c s) = code c ∷ bytes s

abbrev pub eq_bytes : Bytes → Bytes → Bool
eq_bytes [] [] = true
eq_bytes (a ∷ as₀) (b ∷ bs) = eqb a b && eq_bytes as₀ bs
eq_bytes _ _ = false

pub eq_bytes_iff : (a b : Bytes) → (eq_bytes a b ≡ true) ↔ (a ≡ b)
eq_bytes_iff [] [] = (λ _. refl, λ _. refl)
eq_bytes_iff [] (b ∷ bs) = (λ h. cc, λ h. cc)
eq_bytes_iff (a ∷ xs) [] = (λ h. cc, λ h. cc)
eq_bytes_iff (a ∷ xs) (b ∷ ys) =
    let ih = eq_bytes_iff xs ys in
    (
      (λ h. let p : a ≡ b = ground arith in let q = ih.0 (ground arith) in cc),
      (λ h. let p : a ≡ b = cc in let q : xs ≡ ys = cc in let r = ih.1 q in ground arith),
    )

-- the text before the first `c`, and the text after it: `strings.Cut` and `strings.IndexByte`
unfoldable pub cut : ℕ → Bytes → Bytes × Option Bytes
cut c [] = ([], none)
cut c (x ∷ xs) =
    let (before, after) = cut c xs in if eqb x c then ([], some xs) else (x ∷ before, after)

-- the text before the first `/`, and the text from it on
unfoldable pub split_at_slash : Bytes → Bytes × Bytes
split_at_slash [] = ([], [])
split_at_slash (x ∷ xs) =
    let (before, rest) = split_at_slash xs in if eqb x 47 then ([], x ∷ xs) else (x ∷ before, rest)

-- `HasPrefix(s, "://")`
abbrev pub has_scheme_end : Bytes → Bool
has_scheme_end (a ∷ b ∷ c ∷ _) = eqb a 58 && eqb b 47 && eqb c 47
has_scheme_end _ = false

-- the text up to the end of the first `://`, and the text after it: `strings.Index(s, "://")`
unfoldable pub split_scheme : Bytes → Option (Bytes × Bytes)
split_scheme [] = none
split_scheme (x ∷ xs) =
    let rest = split_scheme xs in
    if has_scheme_end (x ∷ xs)
    then some (take 3 (x ∷ xs), drop 3 (x ∷ xs))
    else elim rest [ none ↦ none | some (before, after) ↦ some (x ∷ before, after) ]

-- `strconv.Itoa` of a number that is not negative; `fuel` bounds the digits
unfoldable pub digits : ℕ → ℕ → Bytes
digits zero n = []
digits (suc fuel) n =
    let rest = digits fuel (n / 10) in
    if ltb n 10 then (48 + n) ∷ [] else rest ++ ((48 + n % 10) ∷ [])

unfoldable pub itoa : ℕ → Bytes
unfolding digits
itoa n = digits (suc n) n

abbrev pub is_digit : ℕ → Bool
is_digit c = leb 48 c && leb c 57

unfoldable pub value_from : ℕ → Bytes → ℕ
value_from n [] = n
value_from n (c ∷ cs) = value_from (n * 10 + (c - 48)) cs

value_from-append :
    (n c : ℕ) (xs : Bytes) → value_from n (xs ++ (c ∷ [])) ≡ value_from n xs * 10 + (c - 48)
unfolding value_from
value_from-append n c [] = refl
value_from-append n c (x ∷ xs) = value_from-append (n * 10 + (x - 48)) c xs

value_from-digits : (fuel n : ℕ) → n < fuel → value_from 0 (digits fuel n) ≡ n
unfolding digits value_from
value_from-digits zero n h = omega arith
value_from-digits (suc fuel) n h = elim (Bool-cases (ltb n 10)) [
  | inl small ↦ rw small (omega arith)
  | inr large ↦
      let big : 10 ≤ n = ground arith in
      rw large (
        value_from-append 0 (48 + n % 10) (digits fuel (n / 10))
        ∙ omega (arith, value_from-digits fuel (n / 10) (omega arith)))
]

-- The decimal text of a number reads back as the number.
pub value_from-itoa : (n : ℕ) → value_from 0 (itoa n) ≡ n
unfolding itoa
value_from-itoa n = value_from-digits (suc n) n (omega arith)

all-append : (p : ℕ → Bool) (xs ys : Bytes) → all p (xs ++ ys) ≡ (all p xs && all p ys)
all-append p [] ys = refl
all-append p (x ∷ xs) ys = ground (arith, all-append p xs ys)

pub all-digits : (fuel n : ℕ) → all is_digit (digits fuel n) ≡ true
unfolding digits
all-digits zero n = refl
all-digits (suc fuel) n = elim (Bool-cases (ltb n 10)) [
  | inl small ↦ rw small (ground arith)
  | inr large ↦ rw large (
      ground (
        arith,
        all-append is_digit (digits fuel (n / 10)) ((48 + n % 10) ∷ []),
        all-digits fuel (n / 10),
      ))
]

-- cutting a text at a byte that it does not contain, or that follows such a text
abbrev pub lacks : ℕ → Bytes → Bool
lacks c s = all (λ x. not (eqb x c)) s

pub cut-lacks : (c : ℕ) (s : Bytes) → lacks c s ≡ true → cut c s ≡ (s, none)
unfolding cut
cut-lacks c [] h = refl
cut-lacks c (x ∷ xs) h =
    let ih = cut-lacks c xs (ground arith) in
    let differs : eqb x c ≡ false = ground arith in rw differs (rw ih refl)

pub cut-append : (c : ℕ) (s t : Bytes) → lacks c s ≡ true → cut c (s ++ (c ∷ t)) ≡ (s, some t)
unfolding cut
cut-append c [] t h = let same : eqb c c ≡ true = ground arith in rw same refl
cut-append c (x ∷ xs) t h =
    let ih = cut-append c xs t (ground arith) in
    let differs : eqb x c ≡ false = ground arith in rw differs (rw ih refl)
