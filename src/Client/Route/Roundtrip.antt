-- ===== src/Client/Route/Roundtrip.antt =====
-- What the router parses out of the data that the client has built.
use solana_atomic_arbitrage.Base.{
  ℕ, ◌+◌, ◌<◌, ◌^◌, ◌≡◌, ◌∙◌, ap, subst, refl, Bool, true, false, List, [], ◌∷◌, ◌++◌, length,
  get_elem?, take, length-append, take-append, drop-append_past, get_elem?-append_past, arith, ◌==◌,
  ◌/=◌, some,
}
use solana_atomic_arbitrage.Base.Bytes.{
  to_le_bytes, from_le_bytes, length-to_le_bytes, from_le_bytes-to_le_bytes,
}
use solana_atomic_arbitrage.Router.Slices.{read_u64, u64_at-ok}
use solana_atomic_arbitrage.Router.Instruction.{read_byte, read_args, parse_args}
use solana_atomic_arbitrage.Router.Types.{Result, ok, ◌>>=◌, fail_if}
use solana_atomic_arbitrage.Client.Route.Encode.{build_ix_data, bool_byte}

read_u64-past :
    (xs ys : List ℕ) (n : ℕ) → length xs ≡ 8 → read_u64 (xs ++ ys) (8 + n) ≡ read_u64 ys n
read_u64-past xs ys n h =
    subst (λ m. read_u64 (xs ++ ys) (m + n) ≡ read_u64 ys n) h
      (ap (λ l. from_le_bytes (take 8 l)) (drop-append_past xs ys n))

read_byte-past :
    (xs ys : List ℕ) (n : ℕ) → length xs ≡ 8 → get_elem? (xs ++ ys) (8 + n) ≡ get_elem? ys n
read_byte-past xs ys n h =
    subst (λ m. get_elem? (xs ++ ys) (m + n) ≡ get_elem? ys n) h (get_elem?-append_past xs ys n)

read_u64-encoded : (n : ℕ) (ys : List ℕ) → n < 2 ^ 64 → read_u64 (to_le_bytes 8 n ++ ys) 0 ≡ n
read_u64-encoded n ys h =
    ap from_le_bytes (
      subst (λ m. take m (to_le_bytes 8 n ++ ys) ≡ to_le_bytes 8 n) (length-to_le_bytes 8 n)
        (take-append (to_le_bytes 8 n) ys))
    ∙ from_le_bytes-to_le_bytes 8 n (omega arith)

-- Byte `n` behind the discriminator and the three amounts.
module _ (disc : List ℕ) (a p m : ℕ) (flags : List ℕ) where
  abbrev laid_out : List ℕ
  laid_out = disc ++ (to_le_bytes 8 a ++ (to_le_bytes 8 p ++ (to_le_bytes 8 m ++ flags)))

  get_elem?-laid_out :
      (n : ℕ) → length disc ≡ 8 → get_elem? laid_out (8 + (8 + (8 + (8 + n)))) ≡ get_elem? flags n
  get_elem?-laid_out n h =
      read_byte-past disc _ (8 + (8 + (8 + n))) h
      ∙ read_byte-past (to_le_bytes 8 a) _ (8 + (8 + n)) (length-to_le_bytes 8 a)
      ∙ read_byte-past (to_le_bytes 8 p) _ (8 + n) (length-to_le_bytes 8 p)
      ∙ read_byte-past (to_le_bytes 8 m) flags n (length-to_le_bytes 8 m)

  read_u64-laid_out :
      length disc ≡ 8
      → a < 2 ^ 64
      → p < 2 ^ 64
      → m < 2 ^ 64
      → (read_u64 laid_out 8 ≡ a) × (read_u64 laid_out 16 ≡ p) × (read_u64 laid_out 24 ≡ m)
  read_u64-laid_out h ha hp hm = (
    read_u64-past disc _ 0 h ∙ read_u64-encoded a _ ha,
    read_u64-past disc _ 8 h
        ∙ read_u64-past (to_le_bytes 8 a) _ 0 (length-to_le_bytes 8 a)
        ∙ read_u64-encoded p _ hp,
    read_u64-past disc _ 16 h
        ∙ read_u64-past (to_le_bytes 8 a) _ 8 (length-to_le_bytes 8 a)
        ∙ read_u64-past (to_le_bytes 8 p) _ 0 (length-to_le_bytes 8 p)
        ∙ read_u64-encoded m _ hm,
  )

  length-laid_out : length disc ≡ 8 → length laid_out ≡ 32 + length flags
  length-laid_out h = omega (
    arith,
    length-append disc (to_le_bytes 8 a ++ (to_le_bytes 8 p ++ (to_le_bytes 8 m ++ flags))),
    length-append (to_le_bytes 8 a) (to_le_bytes 8 p ++ (to_le_bytes 8 m ++ flags)),
    length-append (to_le_bytes 8 p) (to_le_bytes 8 m ++ flags),
    length-append (to_le_bytes 8 m) flags,
    length-to_le_bytes 8 a,
    length-to_le_bytes 8 p,
    length-to_le_bytes 8 m,
  )

positive : (n : ℕ) → 0 < n → (n == 0) ≡ false
positive n h = ground arith

bool_byte-ne : (b : Bool) → (bool_byte b /= 0) ≡ b
bool_byte-ne true = refl
bool_byte-ne false = refl

-- A byte that is there is read.
read_byte-eq-ok :
    (bytes : List ℕ) (i : ℕ) {b : ℕ} → get_elem? bytes i ≡ some b → read_byte bytes i ≡ ok b
read_byte-eq-ok bytes i h = rw (h, read_byte) refl

>>=-ok : {A B : Type 0} {m : Result A} {a : A} (f : A → Result B) → m ≡ ok a → (m >>= f) ≡ f a
unfolding ◌>>=◌
>>=-ok f h = rw (h) refl

read_args-laid_out :
    (disc : List ℕ) (a p m : ℕ) (track sol_is_x : Bool) (first second : ℕ)
    → length disc ≡ 8
    → a < 2 ^ 64
    → p < 2 ^ 64
    → m < 2 ^ 64
    → read_args (laid_out disc a p m (bool_byte track ∷ bool_byte sol_is_x ∷ first ∷ second ∷ []))
      ≡ ok (record {
        amount_in = a;
        min_profit = p;
        min_intermediate = m;
        track_volume = track;
        sol_is_x = sol_is_x;
        first_count = first;
        second_count = second;
      })
unfolding read_args
read_args-laid_out disc a p m track sol_is_x first second h ha hp hm =
    let flags = bool_byte track ∷ bool_byte sol_is_x ∷ first ∷ second ∷ [] in
    let bytes = laid_out disc a p m flags in
    let sized = length-laid_out disc a p m flags h in
    let (eq_a, eq_p, eq_m) = read_u64-laid_out disc a p m flags h ha hp hm in
    >>=-ok _ (u64_at-ok bytes 8 (omega (arith, sized)))
    ∙ >>=-ok _ (u64_at-ok bytes 16 (omega (arith, sized)))
    ∙ >>=-ok _ (u64_at-ok bytes 24 (omega (arith, sized)))
    ∙ >>=-ok _ (read_byte-eq-ok bytes 32 (get_elem?-laid_out disc a p m flags 0 h))
    ∙ >>=-ok _ (read_byte-eq-ok bytes 33 (get_elem?-laid_out disc a p m flags 1 h))
    ∙ >>=-ok _ (read_byte-eq-ok bytes 34 (get_elem?-laid_out disc a p m flags 2 h))
    ∙ >>=-ok _ (read_byte-eq-ok bytes 35 (get_elem?-laid_out disc a p m flags 3 h))
    ∙ rw (eq_a, eq_p, eq_m, bool_byte-ne track, bool_byte-ne sol_is_x) refl

-- The router parses exactly the amounts, flags and counts that the client has encoded into the 36
-- bytes, for 64-bit amounts of which the first two are positive.
pub parse_args-build_ix_data :
    (disc : List ℕ) (a p m : ℕ) (track sol_is_x : Bool) (first second : ℕ)
    → length disc ≡ 8
    → a < 2 ^ 64
    → p < 2 ^ 64
    → m < 2 ^ 64
    → 0 < a
    → 0 < p
    → parse_args (build_ix_data disc a p m track sol_is_x first second)
      ≡ ok (record {
        amount_in = a;
        min_profit = p;
        min_intermediate = m;
        track_volume = track;
        sol_is_x = sol_is_x;
        first_count = first;
        second_count = second;
      })
unfolding parse_args build_ix_data ◌>>=◌ fail_if
parse_args-build_ix_data disc a p m track sol_is_x first second h ha hp hm pa pp =
    let flags = bool_byte track ∷ bool_byte sol_is_x ∷ first ∷ second ∷ [] in
    let sized = length-laid_out disc a p m flags h in
    let fields = read_args-laid_out disc a p m track sol_is_x first second h ha hp hm in
    rw (sized) (>>=-ok _ fields ∙ rw (positive a pa, positive p pp) refl)

pub length-build_ix_data :
    (disc : List ℕ) (a p m : ℕ) (track sol_is_x : Bool) (first second : ℕ)
    → length disc ≡ 8
    → length (build_ix_data disc a p m track sol_is_x first second) ≡ 36
unfolding build_ix_data
length-build_ix_data disc a p m track sol_is_x first second h =
    length-laid_out disc a p m (bool_byte track ∷ bool_byte sol_is_x ∷ first ∷ second ∷ []) h
