-- ===== src/Topology/Storers.antt =====
-- Which nodes cover a chunk, and how many there are of each proximity order.
use mathlib.Core.List.{Perm}
use mathlib.Core.Path.{subst}
use mathlib.Core.Bool.{◌||◌}
use directswarm.Base.{
  ℕ, zero, suc, ◌+◌, ◌≤◌, ◌<◌, ◌≡◌, refl, ap, ◌∙◌, ◌↔◌, ◌≢◌, Bool, true, false, Option, none, some,
  ==_iff, sym, any, not, is_empty, insert_sorted, sort_by_key, insert, lookup_or, nat_eq, List, [],
  ◌∷◌, arith, if◌then◌else◌, length, keep, sum, replicate, All, Ascending, sort_by_key-Perm,
  sort_by_key-Ascending, get_or, ◌==◌, Bool-cases, inl, inr, leb→le,
}
use directswarm.Swarm.{SwarmAddress, proximity, neighborhood, max_po, IsAddress}
use directswarm.Swarm.Agreement.{proximity-neighborhood, proximity-le}
use directswarm.Topology.{
  NodeRecord, TopologyCache, records, bump, bin_all, bin_counts, covers, rtt_or_max, storers_for,
  Coverage, cover, coverage,
}

-- The nodes that share the chunk's neighbourhood.
abbrev pub Neighbors : SwarmAddress → ℕ → NodeRecord → Type 0
Neighbors chunk depth n = neighborhood n.overlay depth ≡ neighborhood chunk depth

-- What a filter keeps passes it, and what it drops fails it.
keep-All :
    {A : Type 0} (P : A → Type 0) (f : A → Bool) (xs : List A)
    → All (λ x. f x ≡ true → P x) xs
    → All P (keep f xs)
keep-All P f [] h = tt
keep-All P f (x ∷ xs) (hx, h) = elim (Bool-cases (f x)) [
  | inl passes ↦ rw passes (hx passes, keep-All P f xs h)
  | inr fails ↦ rw fails (keep-All P f xs h)
]

covers-Neighbors :
    (chunk : SwarmAddress) (depth : ℕ) (n : NodeRecord)
    → IsAddress chunk
    → IsAddress n.overlay
    → depth ≤ 31
    → (covers chunk depth n ≡ true) ↔ Neighbors chunk depth n
covers-Neighbors chunk depth n hc hn hd =
    let near = proximity-neighborhood n.overlay chunk depth hn hc hd in
    (
      λ t. near.0 (leb→le depth (proximity n.overlay chunk) t),
      λ e. let le = near.1 e in ground arith,
    )

-- Whether two neighbourhoods are there and the same.
abbrev pub same_nbhd : Option ℕ → Option ℕ → Bool
same_nbhd none o = false
same_nbhd (some x) none = false
same_nbhd (some x) (some y) = x == y

abbrev pub is_neighbor : SwarmAddress → ℕ → NodeRecord → Bool
is_neighbor chunk depth n = same_nbhd (neighborhood n.overlay depth) (neighborhood chunk depth)

neighborhood-ne-none : (a : SwarmAddress) (depth : ℕ) → depth ≤ 31 → neighborhood a depth ≢ none
unfolding neighborhood
neighborhood-ne-none a depth h = ground arith

same_nbhd_lem : (o q : Option ℕ) → o ≢ none → (same_nbhd o q ≡ true) ↔ (o ≡ q)
same_nbhd_lem none q h = absurd (h refl)
same_nbhd_lem (some x) none h = (λ e. cc, λ e. cc)
same_nbhd_lem (some x) (some y) h = (λ e. ap some ((==_iff x y).0 e), λ e. (==_iff x y).1 (cc))

bool_lem : (a b : Bool) → (a ≡ true) ↔ (b ≡ true) → a ≡ b
bool_lem true b h = sym (h.0 refl)
bool_lem false true h = h.1 refl
bool_lem false false h = refl

covers-is_neighbor :
    (chunk : SwarmAddress) (depth : ℕ) (n : NodeRecord)
    → IsAddress chunk
    → IsAddress n.overlay
    → depth ≤ 31
    → covers chunk depth n ≡ is_neighbor chunk depth n
covers-is_neighbor chunk depth n hc hn hd =
    let near = covers-Neighbors chunk depth n hc hn hd in
    let same =
      same_nbhd_lem (neighborhood n.overlay depth) (neighborhood chunk depth)
        (neighborhood-ne-none n.overlay depth hd) in
    bool_lem (covers chunk depth n) (is_neighbor chunk depth n)
      (λ e. same.1 (near.0 e), λ e. near.1 (same.0 e))

keep_same :
    {A : Type 0} (f g : A → Bool) (xs : List A) → All (λ x. f x ≡ g x) xs → keep f xs ≡ keep g xs
keep_same f g [] h = refl
keep_same f g (x ∷ xs) (hx, h) = rw hx (ap (λ ys. if g x then x ∷ ys else ys) (keep_same f g xs h))

insert_sorted-cons :
    {A : Type 0} (key : A → ℕ) (x : A) (xs : List A) → is_empty (insert_sorted key x xs) ≡ false
unfolding insert_sorted
insert_sorted-cons key x [] = refl
insert_sorted-cons key x (y ∷ ys) = ground arith

sort-is_empty :
    {A : Type 0} (key : A → ℕ) (xs : List A) → is_empty (sort_by_key key xs) ≡ is_empty xs
unfolding sort_by_key
sort-is_empty key [] = refl
sort-is_empty key (x ∷ xs) = insert_sorted-cons key x (sort_by_key key xs)

any-keep : {A : Type 0} (f : A → Bool) (xs : List A) → any f xs ≡ not (is_empty (keep f xs))
any-keep f [] = refl
any-keep f (x ∷ xs) = elim (Bool-cases (f x)) [ inl t ↦ rw t refl | inr t ↦ rw t (any-keep f xs) ]

abbrev pub has_storer : TopologyCache → ℕ → SwarmAddress → Bool
has_storer c depth chunk = not (is_empty (storers_for c chunk depth))

any-has_storer :
    (c : TopologyCache) (depth : ℕ) (chunk : SwarmAddress)
    → any (covers chunk depth) (records c) ≡ has_storer c depth chunk
unfolding storers_for
any-has_storer c depth chunk =
    any-keep (covers chunk depth) (records c)
    ∙ ap not (sym (sort-is_empty rtt_or_max (keep (covers chunk depth) (records c))))

cover_lem :
    (c : TopologyCache) (depth : ℕ) (chunks : List SwarmAddress) (n : ℕ) (nbhds : List (ℕ × Bool))
    → depth ≤ 31
    → (more : List (ℕ × Bool)) × (cover c depth chunks (n, nbhds)
        ≡ some (n + length (keep (has_storer c depth) chunks), more))
unfolding cover
cover_lem c depth [] n nbhds h = (nbhds, ground arith)
cover_lem c depth (chunk ∷ chunks) n nbhds h =
    go (neighborhood chunk depth) refl (λ m ns. cover_lem c depth chunks m ns h)
  where
    counted :
        (covered : Bool)
        → covered ≡ has_storer c depth chunk
        → (if covered then n + 1 else n) + length (keep (has_storer c depth) chunks)
          ≡ n + length (keep (has_storer c depth) (chunk ∷ chunks))
    counted true e = rw (sym e) (omega arith)
    counted false e = rw (sym e) refl

    go :
        (o : Option ℕ)
        → neighborhood chunk depth ≡ o
        → ((m : ℕ) (ns : List (ℕ × Bool))
            → (more : List (ℕ × Bool)) × (cover c depth chunks (m, ns)
                ≡ some (m + length (keep (has_storer c depth) chunks), more)))
        → (more : List (ℕ × Bool)) × (cover c depth (chunk ∷ chunks) (n, nbhds)
            ≡ some (n + length (keep (has_storer c depth) (chunk ∷ chunks)), more))
    go none e rest = absurd (neighborhood-ne-none chunk depth h e)
    go (some nbhd) e again =
        let covered = any (covers chunk depth) (records c) in
        let next = insert nbhd (lookup_or false nbhd nbhds || covered) nbhds in
        let (more, rest) = again (if covered then n + 1 else n) next in
        (
          more,
          rw (e, cover)
              (rest ∙ ap (λ k. some (k, more)) (counted covered (any-has_storer c depth chunk))),
        )

-- Up to depth 31, for a chunk and cached overlays that are addresses of 32 bytes: the storers of the
-- chunk are the cached nodes in its neighbourhood, each as often as the cache holds it, in ascending
-- order of their round trips with the unmeasured ones last; and the coverage of any list of chunks is
-- returned, and counts the chunks of the list that have a storer.
pub storers_for_lem :
    (c : TopologyCache) (chunk : SwarmAddress) (depth : ℕ) (chunks : List SwarmAddress)
    → IsAddress chunk
    → All (λ (n : NodeRecord). IsAddress n.overlay) (records c)
    → depth ≤ 31
    → Perm (storers_for c chunk depth) (keep (is_neighbor chunk depth) (records c))
      × Ascending rtt_or_max (storers_for c chunk depth)
      × (found : Coverage) × (coverage c chunks depth ≡ some found)
      × (found.chunks_covered ≡ length (keep (has_storer c depth) chunks))
unfolding storers_for coverage
storers_for_lem c chunk depth chunks hc hs hd =
    let (more, e) = cover_lem c depth chunks 0 [] hd in
    (
      subst (Perm (storers_for c chunk depth))
          (keep_same (covers chunk depth) (is_neighbor chunk depth) (records c)
            (each (records c) hs))
          (sort_by_key-Perm rtt_or_max (keep (covers chunk depth) (records c))),
      sort_by_key-Ascending rtt_or_max (keep (covers chunk depth) (records c)),
      record {
        chunks_covered = 0 + length (keep (has_storer c depth) chunks);
        chunks_total = length chunks;
        neighborhoods_total = length more;
        neighborhoods_covered = length (keep (λ (x : ℕ × Bool). x.1) more);
      },
      rw e refl,
      omega arith,
    )
  where
    each :
        (ns : List NodeRecord)
        → All (λ (n : NodeRecord). IsAddress n.overlay) ns
        → All (λ (n : NodeRecord). covers chunk depth n ≡ is_neighbor chunk depth n) ns
    each [] h = tt
    each (n ∷ ns) (hn, h) = (covers-is_neighbor chunk depth n hc hn hd, each ns h)

-- How many of the nodes stand in the bin.
abbrev pub in_bin : SwarmAddress → ℕ → List NodeRecord → ℕ
in_bin reference i [] = 0
in_bin reference i (n ∷ ns) =
    (if proximity reference n.overlay == i then 1 else 0) + in_bin reference i ns

length-bump : (i : ℕ) (bins : List ℕ) → length (bump i bins) ≡ length bins
unfolding bump
length-bump i [] = refl
length-bump zero (n ∷ ns) = refl
length-bump (suc i) (n ∷ ns) = ap suc (length-bump i ns)

sum-bump : (i : ℕ) (bins : List ℕ) → i < length bins → sum (bump i bins) ≡ sum bins + 1
unfolding bump
sum-bump i [] h = omega arith
sum-bump zero (n ∷ ns) h = omega arith
sum-bump (suc i) (n ∷ ns) h = omega (arith, sum-bump i ns (omega arith))

get_or-bump :
    (i j : ℕ) (bins : List ℕ)
    → i < length bins
    → get_or (bump i bins) j 0 ≡ get_or bins j 0 + (if i == j then 1 else 0)
unfolding bump
get_or-bump i j [] h = omega arith
get_or-bump zero zero (n ∷ ns) h = ground arith
get_or-bump zero (suc j) (n ∷ ns) h = ground arith
get_or-bump (suc i) zero (n ∷ ns) h = ground arith
get_or-bump (suc i) (suc j) (n ∷ ns) h = ground (arith, get_or-bump i j ns (omega arith))

get_or-replicate : (n k : ℕ) → get_or {A = ℕ} (replicate n 0) k 0 ≡ 0
get_or-replicate zero k = refl
get_or-replicate (suc n) zero = refl
get_or-replicate (suc n) (suc k) = get_or-replicate n k

bin_all_lem :
    (reference : SwarmAddress) (ns : List NodeRecord) (bins : List ℕ) (j : ℕ)
    → length bins ≡ max_po + 1
    → (get_or (bin_all reference ns bins) j 0 ≡ get_or bins j 0 + in_bin reference j ns)
      × (sum (bin_all reference ns bins) ≡ sum bins + length ns)
bin_all_lem reference [] bins j h = (omega arith, omega arith)
bin_all_lem reference (n ∷ ns) bins j h =
    let i = proximity reference n.overlay in
    let small : i < length bins = omega (arith, h, proximity-le reference n.overlay) in
    let ih = bin_all_lem reference ns (bump i bins) j (length-bump i bins ∙ h) in
    (omega (arith, ih.0, get_or-bump i j bins small), omega (arith, ih.1, sum-bump i bins small))

-- No node falls outside the bins: each bin counts the nodes of its proximity order, and together
-- they
-- count every node once.
pub bin_counts_lem :
    (c : TopologyCache) (j : ℕ)
    → j ≤ max_po
    → (get_or (bin_counts c) j 0 ≡ in_bin c.reference j (records c))
      × (sum (bin_counts c) ≡ length (records c))
unfolding bin_counts
bin_counts_lem c j h =
    let all = bin_all_lem c.reference (records c) (replicate (max_po + 1) 0) j refl in
    (omega (arith, all.0, get_or-replicate (max_po + 1) j), omega (arith, all.1))
