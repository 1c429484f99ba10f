-- ===== src/Http/Capped.antt =====
-- The bounded read of util/http.py, `_read_capped`, against the unbounded one, `aread`.
use openai_api_bridge.Prelude.{
  ℕ, ◌+◌, ◌≤◌, ◌<◌, ◌≡◌, refl, ap, ◌∙◌, ◌⊎◌, inl, inr, Option, none, some, [], ◌∷◌, ◌++◌, ltb,
  length, Text, Bool-cases, length-append, arith,
}
use openai_api_bridge.Http.{
  Body, done, broken, chunk, Read, ok, http_error, too_large, aread, read_chunks, read_capped,
}

-- the response declares no length, or one within the cap
abbrev pub IsWithin : ℕ → Option ℕ → Type 0
IsWithin max_bytes none = Unit
IsWithin max_bytes (some length) = length ≤ max_bytes

++-nil : (s : Text) → s ++ [] ≡ s
++-nil [] = refl
++-nil (c ∷ s) = ap (λ t. c ∷ t) (++-nil s)

++-assoc' : (s t u : Text) → (s ++ t) ++ u ≡ s ++ (t ++ u)
++-assoc' [] t u = refl
++-assoc' (c ∷ s) t u = ap (λ v. c ∷ v) (++-assoc' s t u)

Read-cases :
    (x : Read Text) → ((d : Text) × (x ≡ ok d)) ⊎ ((x ≡ http_error) ⊎ ((n : ℕ) × (x ≡ too_large n)))
Read-cases (ok d) = inl (d, refl)
Read-cases http_error = inr (inl refl)
Read-cases (too_large n) = inr (inr (n, refl))

aread-chunk :
    (bytes : Text) (b : Body) (d : Text)
    → aread (chunk bytes b) ≡ ok d
    → (d' : Text) × (aread b ≡ ok d') × (d ≡ bytes ++ d')
unfolding aread
aread-chunk bytes b d h = elim (Read-cases (aread b)) [
  | inl (d', p) ↦ (d', p, ground (arith, p))
  | inr (inl p) ↦ ground (arith, p)
  | inr (inr (n, p)) ↦ ground (arith, p)
]

-- the loop, from a state in which `received` bytes are kept
read_chunks-fits :
    (max_bytes received : ℕ) (parts : Text) (b : Body) (d : Text)
    → aread b ≡ ok d
    → received + length d ≤ max_bytes
    → read_chunks max_bytes received parts b ≡ ok (parts ++ d)
unfolding aread read_chunks
read_chunks-fits m r parts done d h le = ground (arith, ++-nil parts)
read_chunks-fits m r parts broken d h le = ground arith
read_chunks-fits m r parts (chunk bytes b) d h le =
    let (d', p, q) = aread-chunk bytes b d h in
    let size = ap length q ∙ length-append bytes d' in
    let rest =
      read_chunks-fits m (r + length bytes) (parts ++ bytes) b d' p (omega (arith, size)) in
    ground (arith, rest, q, size, ++-assoc' parts bytes d')

read_chunks-refuses :
    (max_bytes received : ℕ) (parts : Text) (b : Body) (d : Text)
    → received ≤ max_bytes
    → aread b ≡ ok d
    → max_bytes < received + length d
    → (n : ℕ) × (max_bytes < n) × (read_chunks max_bytes received parts b ≡ too_large n)
unfolding aread read_chunks
read_chunks-refuses m r parts done d g h lt = ground (arith, ap (length {A = ℕ}))
read_chunks-refuses m r parts broken d g h lt = ground arith
read_chunks-refuses m r parts (chunk bytes b) d g h lt =
    let (d', p, q) = aread-chunk bytes b d h in
    let size = ap length q ∙ length-append bytes d' in
    elim (Bool-cases (ltb m (r + length bytes))) [
      | inl over ↦ (r + length bytes, ground (arith, over), ground (arith, over))
      | inr under ↦
          let rest =
            read_chunks-refuses m (r + length bytes) (parts ++ bytes) b d' (ground (arith, under)) p
              (omega (arith, size)) in
          ground (arith, rest, under)
    ]

read_chunks_sound :
    (max_bytes received : ℕ) (parts : Text) (b : Body) (d : Text)
    → received ≤ max_bytes
    → read_chunks max_bytes received parts b ≡ ok d
    → (d' : Text) × (aread b ≡ ok d') × (d ≡ parts ++ d') × (received + length d' ≤ max_bytes)
unfolding aread read_chunks
read_chunks_sound m r parts done d g h = ([], refl, ground (arith, ++-nil parts), ground arith)
read_chunks_sound m r parts broken d g h = ground arith
read_chunks_sound m r parts (chunk bytes b) d g h = elim (Bool-cases (ltb m (r + length bytes))) [
  | inl over ↦ ground (arith, over)
  | inr under ↦
      let (d', p, q, le) =
        read_chunks_sound m (r + length bytes) (parts ++ bytes) b d (ground (arith, under))
          (ground (arith, under)) in
      (
        bytes ++ d',
        ground (arith, p),
        q ∙ ++-assoc' parts bytes d',
        omega (arith, le, length-append bytes d'),
      )
]

skips :
    (max_bytes : ℕ) (declared : Option ℕ) (body : Body)
    → IsWithin max_bytes declared
    → read_capped declared body (some max_bytes) ≡ read_chunks max_bytes 0 [] body
unfolding read_capped
skips m none body w = refl
skips m (some length) body w = ground (arith, w)

reads :
    (max_bytes : ℕ) (declared : Option ℕ) (body : Body) (d : Text)
    → read_capped declared body (some max_bytes) ≡ ok d
    → read_chunks max_bytes 0 [] body ≡ ok d
unfolding read_capped
reads m none body d h = h
reads m (some length) body d h = ground arith

-- Under a cap, the read of a body whose chunks all arrive, from a response that declares no length
-- above the cap, returns the whole body if it has at most `max_bytes` bytes; if it has more, it is
-- refused, with a count above the cap.
pub read_capped_exact :
    (max_bytes : ℕ) (declared : Option ℕ) (body : Body) (d : Text)
    → IsWithin max_bytes declared
    → aread body ≡ ok d
    → ((length d ≤ max_bytes) × (read_capped declared body (some max_bytes) ≡ ok d))
      ⊎ ((max_bytes < length d)
          × ((n : ℕ) × (max_bytes < n)
              × (read_capped declared body (some max_bytes) ≡ too_large n)))
unfolding read_capped
read_capped_exact m declared body d w h =
    let from_chunks = skips m declared body w in
    elim (Bool-cases (ltb m (length d))) [
      | inl over ↦
          let (n, lt, p) =
            read_chunks-refuses m 0 [] body d (omega arith) h (ground (arith, over)) in
          inr (ground (arith, over), (n, lt, from_chunks ∙ p))
      | inr under ↦ inl (
        ground (arith, under),
        from_chunks ∙ read_chunks-fits m 0 [] body d h (ground (arith, under)),
      )
    ]

-- Whatever the response declares, what a read under a cap returns is the whole body, and it has at
-- most `max_bytes` bytes: a body that breaks off or exceeds the cap is never returned in part.
pub read_capped_sound :
    (max_bytes : ℕ) (declared : Option ℕ) (body : Body) (d : Text)
    → read_capped declared body (some max_bytes) ≡ ok d
    → (aread body ≡ ok d) × (length d ≤ max_bytes)
unfolding read_capped
read_capped_sound m declared body d h =
    let (d', p, q, le) =
      read_chunks_sound m 0 [] body d (omega arith) (reads m declared body d h) in
    ground (arith, p, q, le)
