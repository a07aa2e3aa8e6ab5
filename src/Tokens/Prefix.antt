-- ===== src/Tokens/Prefix.antt =====
-- The chunks of a prefix that is a whole number of chunks are the first chunks of every longer list,
-- with the same names: what was stored for the prefix is found again.
use Prim.Native.String.{String}
use native.Mathlib.Nat.{mul-mod_left, mul-add-mod_self_right, mod-le}
use mtds.Prelude.{
  ℕ, suc, ◌+◌, ◌-◌, ◌*◌, ◌%◌, ◌≤◌, ◌<◌, ◌≡◌, refl, sym, ap, subst, ◌∙◌, Bool, true, false, Option,
  List, [], ◌∷◌, ◌++◌, length, length-append, ltb, ok, arith, Bool-cases, inl, inr,
}
use mtds.Tokens.{
  ChunkedTokenDatabase, KeyOrHash, Chunk, Hashing, hash_tokens, prefix_hashes, num_falses,
  process_tokens,
}
use mtds.Tokens.Pieces.{pieces, pieces-append}
use mtds.Tokens.Listed.{CanName, name_of, listed, Fills}
use mtds.Tokens.Process.{IsReady, stop_of, hashes, process-listed, hashes-Fills}

prefix_hashes-append :
    (hashing : Hashing) (prefix : String) (cs ds : List (List ℕ))
    → (more : List String) × (prefix_hashes hashing prefix (cs ++ ds)
        ≡ prefix_hashes hashing prefix cs ++ more)
unfolding prefix_hashes
prefix_hashes-append hashing prefix [] ds = (prefix_hashes hashing prefix ds, refl)
prefix_hashes-append hashing prefix (c ∷ cs) ds =
    let (more, e) = prefix_hashes-append hashing (hash_tokens hashing c prefix) cs ds in
    (more, rw e)

next_fits : (i k size : ℕ) → i * size < k * size → i * size + size ≤ k * size
next_fits i k size h = elim (Bool-cases (ltb i k)) [
  | inl less ↦
      let d = k - suc i in
      let sum : suc i + d ≡ k = ground arith in
      subst (λ n. i * size + size ≤ n * size) sum (omega arith)
  | inr other ↦
      let d = i - k in
      let sum : k + d ≡ i = ground arith in
      let le : k * size ≤ i * size = subst (λ n. k * size ≤ n * size) sum (omega arith) in
      absurd (omega arith)
]

listed-append :
    (name : String → KeyOrHash) (size k total falses i : ℕ) (hs more : List String)
    → Fills size (k * size) (i * size) hs
    → k * size ≤ total
    → (rest : List Chunk) × (listed name size total falses i (hs ++ more)
        ≡ listed name size (k * size) falses i hs ++ rest)
unfolding listed
listed-append name size k total falses i [] more f h = (listed name size total falses i more, refl)
listed-append name size k total falses i (x ∷ xs) more f h =
    let next : suc i * size ≡ i * size + size = omega arith in
    let fits : i * size + size ≤ k * size = next_fits i k size f.0 in
    let (rest, e) = listed-append name size k total falses (suc i) xs more (rw next f.1) h in
    (rest, ground (arith, e, fits))

stop_whole : (save : Bool) (size n k : ℕ) → n ≡ k * size → stop_of save size n ≡ n
stop_whole true size n k e = refl
stop_whole false size n k e =
    let whole : n % size ≡ 0 = rw e (mul-mod_left k size) in omega (arith, whole)

stop-append :
    (save : Bool) (size n k m : ℕ)
    → n ≡ k * size
    → stop_of save size (n + m) ≡ n + stop_of save size m
stop-append true size n k m e = refl
stop-append false size n k m e =
    let same : (n + m) % size ≡ m % size = rw e (mul-add-mod_self_right k size m) in
    omega (arith, same, mod-le m size)

module _ (hashing : Hashing) (db : ChunkedTokenDatabase) (ready : IsReady db) where
  open ready use {size, save, filled}

  hashes-append :
      (xs ys : List ℕ) (k : ℕ)
      → length xs ≡ k * size
      → (more : List String) × (hashes hashing db ready (xs ++ ys)
          ≡ hashes hashing db ready xs ++ more)
  hashes-append xs ys k e =
      let m = stop_of save size (length ys) in
      let n = length xs in
      let pa = pieces-append k (n + m) m size xs ys filled e (omega arith) in
      let long : stop_of save size (length (xs ++ ys)) ≡ n + m =
        rw length-append (stop-append save size n k (length ys) e) in
      rw (long, stop_whole save size n k e, pa)
        (prefix_hashes-append hashing "" (pieces n n size xs) (pieces m m size ys))

  -- After a prefix that is a whole number of chunks, any tokens may follow: the chunks of the prefix
  -- come first, at the same places and with the same names.
  pub process_tokens-append :
      (xs ys : List ℕ) (k : ℕ) (mask : Option (List Bool)) (make_key : Bool)
      → length xs ≡ k * size
      → CanName db make_key
      → num_falses mask % size ≡ 0
      → (chunks more : List Chunk) × (process_tokens hashing db xs mask make_key ≡ ok chunks)
        × (process_tokens hashing db (xs ++ ys) mask make_key ≡ ok (chunks ++ more))
  process_tokens-append xs ys k mask make_key e c whole =
      let name = name_of db make_key c in
      let falses = num_falses mask in
      let (later, joined) = hashes-append xs ys k e in
      let fills : Fills size (k * size) (0 * size) (hashes hashing db ready xs) =
        subst (λ z. Fills size z (0 * size) (hashes hashing db ready xs))
          (stop_whole save size (length xs) k e ∙ e) (hashes-Fills hashing db ready xs) in
      let (rest, split) =
        listed-append name size k (length (xs ++ ys)) falses 0 (hashes hashing db ready xs) later
          fills (rw length-append (omega arith)) in
      (
        listed name size (length xs) falses 0 (hashes hashing db ready xs),
        rest,
        process-listed hashing db ready xs mask make_key c whole,
        process-listed hashing db ready (xs ++ ys) mask make_key c whole
            ∙ ap ok (
                ap (listed name size (length (xs ++ ys)) falses 0) joined
                ∙ (split
                    ∙ ap (λ n. listed name size n falses 0 (hashes hashing db ready xs) ++ rest)
                        (sym e))),
      )
