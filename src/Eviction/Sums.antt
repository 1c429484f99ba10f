-- ===== src/Eviction/Sums.antt =====
-- Measures of rows, added up, over what infra/eviction.py selects, picks and deletes.
use openai_api_bridge.Prelude.{
  ℕ, zero, suc, ◌+◌, ◌-◌, ◌≤◌, ◌<◌, ◌≡◌, refl, true, false, List, [], ◌∷◌, map, leb, if◌then◌else◌,
  length, take, drop, Text, text_eq, text_eq_refl, arith,
}
use openai_api_bridge.FileStore.{FileMetadata, holds, others, total_byte_size}
use openai_api_bridge.Eviction.{unpinned, pick}
use openai_api_bridge.Eviction.Counts.{count}

-- a measure of rows, added up
unfoldable pub sum : (FileMetadata → ℕ) → List FileMetadata → ℕ
sum f [] = 0
sum f (r ∷ rows) = f r + sum f rows

-- what `ORDER BY` promises here: it returns the rows that it is given, each as often, so that every
-- measure of them adds up to the same
abbrev pub Permutes : (List FileMetadata → List FileMetadata) → Type 0
Permutes order = (f : FileMetadata → ℕ) (rows : List FileMetadata) → sum f (order rows) ≡ sum f rows

abbrev pub has_id : Text → FileMetadata → ℕ
has_id i r = if text_eq r.id i then 1 else 0

abbrev pub size : FileMetadata → ℕ
size r = r.byte_size

abbrev pub ids : List FileMetadata → List Text
ids = map (λ r. r.id)

abbrev pub size_if : List Text → FileMetadata → ℕ
size_if is r = if holds r.id is then r.byte_size else 0

pub count-sum : (i : Text) (rows : List FileMetadata) → count i rows ≡ sum (has_id i) rows
unfolding count sum
count-sum i [] = refl
count-sum i (r ∷ rows) = ground (arith, count-sum i rows)

pub total-sum : (rows : List FileMetadata) → total_byte_size rows ≡ sum size rows
unfolding total_byte_size sum
total-sum [] = refl
total-sum (r ∷ rows) = omega (arith, total-sum rows)

pub sum-take :
    (f : FileMetadata → ℕ) (n : ℕ) (rows : List FileMetadata)
    → sum f rows ≡ sum f (take n rows) + sum f (drop n rows)
unfolding sum
sum-take f zero rows = omega arith
sum-take f (suc n) [] = refl
sum-take f (suc n) (r ∷ rows) = omega (arith, sum-take f n rows)

unfoldable pub pinned_rows : List FileMetadata → List FileMetadata
pinned_rows [] = []
pinned_rows (r ∷ rows) = if r.pinned then r ∷ pinned_rows rows else pinned_rows rows

pub sum-unpinned :
    (f : FileMetadata → ℕ) (rows : List FileMetadata)
    → sum f rows ≡ sum f (unpinned rows) + sum f (pinned_rows rows)
unfolding sum unpinned pinned_rows
sum-unpinned f [] = refl
sum-unpinned f (r ∷ rows) = ground (arith, sum-unpinned f rows)

-- the rows that `pick` takes, and those that it leaves
unfoldable pub prefix : ℕ → ℕ → List FileMetadata → List FileMetadata
prefix cap total [] = []
prefix cap total (r ∷ found) =
    let more = prefix cap (total - r.byte_size) found in if leb total cap then [] else r ∷ more

unfoldable pub suffix : ℕ → ℕ → List FileMetadata → List FileMetadata
suffix cap total [] = []
suffix cap total (r ∷ found) =
    let more = suffix cap (total - r.byte_size) found in if leb total cap then r ∷ found else more

pub sum-prefix :
    (f : FileMetadata → ℕ) (cap total : ℕ) (found : List FileMetadata)
    → sum f found ≡ sum f (prefix cap total found) + sum f (suffix cap total found)
unfolding sum prefix suffix
sum-prefix f cap total [] = refl
sum-prefix f cap total (r ∷ found) = ground (arith, sum-prefix f cap (total - r.byte_size) found)

pub pick-ids :
    (cap total : ℕ) (found : List FileMetadata)
    → (pick cap total found).0 ≡ ids (prefix cap total found)
unfolding pick prefix
pick-ids cap total [] = refl
pick-ids cap total (r ∷ found) = ground (arith, pick-ids cap (total - r.byte_size) found)

pub pick-left :
    (cap total : ℕ) (found : List FileMetadata)
    → sum size found ≤ total
    → (pick cap total found).1 + sum size (prefix cap total found) ≡ total
unfolding pick prefix sum
pick-left cap total [] h = omega arith
pick-left cap total (r ∷ found) h = ground (arith, pick-left cap (total - r.byte_size) found, h)

pub pick-short :
    (cap total : ℕ) (found : List FileMetadata)
    → length (pick cap total found).0 < length found
    → (pick cap total found).1 ≤ cap
unfolding pick
pick-short cap total [] h = ground arith
pick-short cap total (r ∷ found) h = ground (arith, pick-short cap (total - r.byte_size) found, h)

pub total-others :
    (is : List Text) (rows : List FileMetadata)
    → total_byte_size (others is rows) + sum (size_if is) rows ≡ total_byte_size rows
unfolding total_byte_size others sum
total-others is [] = refl
total-others is (r ∷ rows) = ground (arith, total-others is rows)

-- no id of `picked` is the id of a row of `other`, where no id occurs twice in the two together
pub holds-ids :
    (i : Text) (picked : List FileMetadata)
    → sum (has_id i) picked ≡ 0
    → holds i (ids picked) ≡ false
unfolding holds sum
holds-ids i [] h = refl
holds-ids i (r ∷ picked) h = ground (arith, holds-ids i picked, h)

pub apart-sum :
    (picked other : List FileMetadata)
    → ((i : Text) → sum (has_id i) picked + sum (has_id i) other ≤ 1)
    → sum (size_if (ids picked)) other ≡ 0
unfolding sum
apart-sum picked [] h = refl
apart-sum picked (r ∷ other) h =
    let none_picked : sum (has_id r.id) picked ≡ 0 = ground (arith, h r.id, text_eq_refl r.id) in
    ground
      (arith, holds-ids r.id picked none_picked, apart-sum picked other (λ i. ground (arith, h i)))

pub own-sum :
    (is : List Text) (picked : List FileMetadata)
    → ((i : Text) → holds i (ids picked) ≡ true → holds i is ≡ true)
    → sum (size_if is) picked ≡ sum size picked
unfolding sum holds
own-sum is [] h = refl
own-sum is (r ∷ picked) h = ground (
  arith,
  h r.id (ground (arith, text_eq_refl r.id)),
  own-sum is picked (λ i g. h i (ground (arith, g))),
)

pub sum-one : (rows : List FileMetadata) → sum (λ r. 1) rows ≡ length rows
unfolding sum
sum-one [] = refl
sum-one (r ∷ rows) = omega (arith, sum-one rows)
