-- ===== src/Samples/Codec.antt =====
-- A token format that meets the laws of `DecodesJwt`: claims and key in a prefix code.
use Prim.Native.Char.{Char, code}
use Prim.Native.String.{[], ◌∷◌}
use saas_backend_fastapi.Prelude.{
  ℕ, zero, suc, String, ◌==◌, ◌≡◌, refl, Bool, Option, none, some, arith, leb, if◌then◌else◌,
  eq_refl, eq_iff,
}
use saas_backend_fastapi.Platform.{Platform, Claims, DecodesJwt}

abbrev plus : Char
plus = Prim.Native.Char.char 43 tt

abbrev dot : Char
dot = Prim.Native.Char.char 46 tt

abbrev is_dot : Char → Bool
is_dot c = leb 46 (code c)

put_text : String → String → String
put_text [] rest = dot ∷ rest
put_text (c ∷ s) rest = plus ∷ c ∷ put_text s rest

get_text : String → Option (String × String)
get_text [] = none
get_text (m ∷ []) = if is_dot m then some ([], []) else none
get_text (m ∷ c ∷ rest) =
    let more = get_text rest in
    if is_dot m
    then some ([], c ∷ rest)
    else elim more [ none ↦ none | some (s, r) ↦ some (c ∷ s, r) ]

put_number : ℕ → String → String
put_number zero rest = dot ∷ rest
put_number (suc n) rest = plus ∷ put_number n rest

get_number : String → Option (ℕ × String)
get_number [] = none
get_number (m ∷ rest) =
    let more = get_number rest in
    if is_dot m
    then some (zero, rest)
    else elim more [ none ↦ none | some (n, r) ↦ some (suc n, r) ]

get-put_text : (s rest : String) → get_text (put_text s rest) ≡ some (s, rest)
unfolding get_text put_text
get-put_text [] [] = refl
get-put_text [] (c ∷ rest) = refl
get-put_text (c ∷ s) rest = rw (get-put_text s rest) refl

get-put_number : (n : ℕ) (rest : String) → get_number (put_number n rest) ≡ some (n, rest)
unfolding get_number put_number
get-put_number zero rest = refl
get-put_number (suc n) rest = rw (get-put_number n rest) refl

abbrev then_text : {A : Type 0} → Option (String × String) → (String → String → Option A) → Option A
then_text none f = none
then_text (some (s, r)) f = f s r

put_option : Option String → String → String
put_option none rest = dot ∷ rest
put_option (some s) rest = plus ∷ put_text s rest

get_option : String → Option (Option String × String)
get_option [] = none
get_option (m ∷ rest) =
    if is_dot m
    then some (none, rest)
    else elim (get_text rest) [ none ↦ none | some (s, r) ↦ some (some s, r) ]

get-put_option :
    (o : Option String) (rest : String) → get_option (put_option o rest) ≡ some (o, rest)
unfolding get_option put_option
get-put_option none rest = refl
get-put_option (some s) rest = rw (get-put_text s rest) refl

put_exp : Option ℕ → String → String
put_exp none rest = dot ∷ rest
put_exp (some n) rest = plus ∷ put_number n rest

get_exp : String → Option (Option ℕ × String)
get_exp [] = none
get_exp (m ∷ rest) =
    if is_dot m
    then some (none, rest)
    else elim (get_number rest) [ none ↦ none | some (n, r) ↦ some (some n, r) ]

get-put_exp : (o : Option ℕ) (rest : String) → get_exp (put_exp o rest) ≡ some (o, rest)
unfolding get_exp put_exp
get-put_exp none rest = refl
get-put_exp (some n) rest = rw (get-put_number n rest) refl

pub encode : Claims → String → String
encode c key = put_option c.sub (put_option c.type (put_exp c.exp (put_text key [])))

parse : String → Option (Claims × String)
parse t = elim (get_option t) [
  | none ↦ none
  | some (sub, r) ↦ elim (get_option r) [
    | none ↦ none
    | some (type, r') ↦ elim (get_exp r') [
      | none ↦ none
      | some (exp, r'') ↦ elim (get_text r'') [
        | none ↦ none
        | some (key, _) ↦ some (record { sub = sub; type = type; exp = exp }, key)
      ]
    ]
  ]
]

parse-encode : (c : Claims) (key : String) → parse (encode c key) ≡ some (c, key)
unfolding parse encode
parse-encode c key = ground (
  arith,
  get-put_option c.sub (put_option c.type (put_exp c.exp (put_text key []))),
  get-put_option c.type (put_exp c.exp (put_text key [])),
  get-put_exp c.exp (put_text key []),
  get-put_text key [],
)

abbrev alive : ℕ → Claims → Option ℕ → Option Claims
alive now c none = some c
alive now c (some exp) = if leb now exp then some c else none

abbrev checked : ℕ → String → Option (Claims × String) → Option Claims
checked now key none = none
checked now key (some (c, k)) = if k == key then alive now c c.exp else none

pub decode : ℕ → String → String → Option Claims
decode now t key = checked now key (parse t)

checked_claims :
    (now : ℕ) (key : String) (o : Option (Claims × String)) (c : Claims)
    → checked now key o ≡ some c
    → (k : String) × (o ≡ some (c, k)) × (k ≡ key) × (alive now c c.exp ≡ some c)
checked_claims now key none c h = absurd (cc)
checked_claims now key (some (c', k)) c h =
    (k, ground arith, ground (arith, eq_iff k key), ground arith)

-- A platform with this format meets the laws.
pub decode-DecodesJwt :
    (p : Platform) → p.jwt_encode ≡ encode → p.jwt_decode ≡ decode → DecodesJwt p
unfolding decode
decode-DecodesJwt p enc dec = record {
  valid = λ now exp c key e le. rw (enc, dec) (ground (arith, parse-encode c key, eq_refl key));
  lasts = λ now now' exp t key c d e le le'.
      let (k, parsed, same, live) = checked_claims now key (parse t) c (rw dec at d) in
      rw dec (ground (arith, eq_iff k key));
  stable = λ now now' t key c c' d d'.
      let (k, parsed, same, live) = checked_claims now key (parse t) c (rw dec at d) in
      let (k', parsed', same', live') = checked_claims now' key (parse t) c' (rw dec at d') in
      ground arith;
  late = λ now exp t key c d e.
      let (k, parsed, same, live) = checked_claims now key (parse t) c (rw dec at d) in
      ground arith;
}
