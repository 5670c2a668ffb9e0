-- ===== src/Connection/Conserve/Tasks.antt =====
-- The end of a fetch task, and where its chunk is then.
use directswarm.Base.{
  ℕ, zero, suc, ◌+◌, ◌≤◌, ◌≡◌, refl, ap, sym, ◌∙◌, ◌⊎◌, inl, inr, Bool, true, false, List, [], ◌∷◌,
  ◌++◌, Option, none, some, if◌then◌else◌, arith, nat_eq, length, In, In-append_left,
  In-append_right, Bool-cases, lookup, lookup-insert, insert, contains_key, bytes_eq, bytes_beq,
  bytes_beq_iff, u32_max,
}
use directswarm.Swarm.{SwarmAddress}
use directswarm.Wire.{Bytes}
use directswarm.Hex.{HexCrate}
use directswarm.ChunkStore.{Store, Write, whole, write_at, contains, put, put_index, flush_locked}
use directswarm.Connection.{Shared, Drive, State}
use directswarm.Connection.Events.{take_at, landed, finish_task}
use directswarm.Connection.Conserve.{Queued, targets, Held, Covered}

contains-insert :
    (addr a : SwarmAddress) (span : ℕ × ℕ) (s s' : Store)
    → s'.index ≡ insert addr span s.index
    → contains s' a ≡ (if bytes_beq addr a then true else contains s a)
unfolding contains contains_key
contains-insert addr a span s s' e =
    ap (λ i. elim (lookup a i) [ none ↦ false | some v ↦ true ]) e
    ∙ ap (λ o. elim o [ none ↦ false | some v ↦ true ]) (lookup-insert addr a span s.index)
    ∙ elim (Bool-cases (bytes_beq addr a)) [ inl same ↦ rw same refl | inr other ↦ rw other refl ]

-- A chunk that fits is entered into the index, flushed or not.
put_index-index :
    (hex : HexCrate) (syncs : Bool) (addr : SwarmAddress) (len : ℕ) (s : Store)
    → len ≤ u32_max
    → (put_index hex syncs addr len s).0.index ≡ insert addr (s.end_of_data, len) s.index
unfolding put_index flush_locked
put_index-index hex syncs addr len s h = ground arith

-- With a disk that writes, the chunk is in the store after a put.
pub put-stores :
    (hex : HexCrate) (syncs : Bool) (addr : SwarmAddress) (wire : Bytes) (s : Store)
    (a : SwarmAddress)
    → length wire ≤ u32_max
    → (contains s a ≡ true) ⊎ (a ≡ addr)
    → contains (put hex whole syncs addr wire s).0 a ≡ true
unfolding put
put-stores hex syncs addr wire s a h known = elim (Bool-cases (contains s addr)) [
  | inl there ↦ rw (there, put) (old there known)
  | inr fresh ↦
      rw (fresh, put)
        (contains-insert addr a (s.end_of_data, length wire) s _
            (put_index-index hex syncs addr (length wire)
              (record s { dat = write_at s.end_of_data wire s.dat }) h)
          ∙ new known)
]
  where
    old : contains s addr ≡ true → (contains s a ≡ true) ⊎ (a ≡ addr) → contains s a ≡ true
    old there (inl e) = e
    old there (inr e) = ap (contains s) e ∙ there

    new :
        (contains s a ≡ true) ⊎ (a ≡ addr)
        → (if bytes_beq addr a then true else contains s a) ≡ true
    new (inl e) = ground arith
    new (inr e) = ground (arith, bytes_beq_iff addr a, sym e)

-- What is left of the targets when a task is taken out.
abbrev Remains :
    SwarmAddress
    → List (SwarmAddress × ℕ)
    → Option ((SwarmAddress × ℕ) × List (SwarmAddress × ℕ))
    → Type 0
Remains a xs none = Unit
Remains a xs (some ((addr, price), rest)) = In a (targets xs) → In a (targets rest) ⊎ (a ≡ addr)

take_at-Remains :
    (a : SwarmAddress) (i : ℕ) (xs : List (SwarmAddress × ℕ)) → Remains a xs (take_at i xs)
take_at-Remains a i [] = tt
take_at-Remains a zero (x ∷ xs) = λ m. elim m [ inl e ↦ inr e | inr n ↦ inl n ]
take_at-Remains a (suc i) (x ∷ xs) = go (take_at i xs) (take_at-Remains a i xs)
  where
    go :
        (o : Option ((SwarmAddress × ℕ) × List (SwarmAddress × ℕ)))
        → Remains a xs o
        → Remains a (x ∷ xs) (elim o [ none ↦ none | some (y, rest) ↦ some (y, x ∷ rest) ])
    go none t = tt
    go (some ((addr, price), rest)) t = λ m. elim m [
      | inl e ↦ inl (inl e)
      | inr n ↦ elim (t n) [ inl stays ↦ inl (inr stays) | inr e ↦ inr e ]
    ]

-- The disk writes the whole of a chunk whose length fits into 32 bits.
abbrev pub Writes : Option Bytes → Write → Type 0
Writes none w = Unit
Writes (some bytes) w = (w ≡ whole) × (length bytes ≤ u32_max)

-- A task that ends stores its chunk, or hands it to the fallback channel.
landed-Covered :
    (hex : HexCrate) (chunk : Option Bytes) (w : Write) (syncs : Bool) (addr : SwarmAddress)
    (price : ℕ) (a : SwarmAddress) (g : Shared) (d : Drive)
    → Writes chunk w
    → Covered a (g, d) ⊎ (a ≡ addr)
    → Covered a (landed hex chunk w syncs addr price (g, d))
unfolding landed
landed-Covered hex none w syncs addr price a g d _ h = failed h
  where
    failed :
        Covered a (g, d) ⊎ (a ≡ addr)
        → (Queued a g.pool ⊎ In a (g.fallback ++ addr ∷ []) ⊎ (contains g.store a ≡ true))
          ⊎ Held a d
    failed (inl (inl (inl q))) = inl (inl q)
    failed (inl (inl (inr (inl m)))) = inl (inr (inl (In-append_left a g.fallback (addr ∷ []) m)))
    failed (inl (inl (inr (inr kept)))) = inl (inr (inr kept))
    failed (inl (inr k)) = inr k
    failed (inr e) = inl (inr (inl (In-append_right a g.fallback (addr ∷ []) (inl e))))
landed-Covered hex (some bytes) w syncs addr price a g d (writes, fits) h = served h
  where
    entered :
        (contains g.store a ≡ true) ⊎ (a ≡ addr)
        → contains (put hex w syncs addr bytes g.store).0 a ≡ true
    entered k =
        ap (λ x. contains (put hex x syncs addr bytes g.store).0 a) writes
        ∙ put-stores hex syncs addr bytes g.store a fits k

    served :
        Covered a (g, d) ⊎ (a ≡ addr)
        → (Queued a g.pool
            ⊎ In a g.fallback
            ⊎ (contains (put hex w syncs addr bytes g.store).0 a ≡ true))
          ⊎ Held a d
    served (inl (inl (inl q))) = inl (inl q)
    served (inl (inl (inr (inl m)))) = inl (inr (inl m))
    served (inl (inl (inr (inr kept)))) = inl (inr (inr (entered (inl kept))))
    served (inl (inr k)) = inr k
    served (inr e) = inl (inr (inr (entered (inr e))))

pub finish_task-Covered :
    (hex : HexCrate) (i : ℕ) (chunk : Option Bytes) (w : Write) (syncs : Bool) (a : SwarmAddress)
    (s : State)
    → Writes chunk w
    → Covered a s
    → Covered a (finish_task hex i chunk w syncs s)
unfolding finish_task
finish_task-Covered hex i chunk w syncs a (g, d) writes h =
    go (take_at i d.running) refl (take_at-Remains a i d.running)
  where
    without :
        (addr : SwarmAddress) (rest : List (SwarmAddress × ℕ))
        → (In a (targets d.running) → In a (targets rest) ⊎ (a ≡ addr))
        → Covered a (g, d)
        → Covered a (g, record d { running = rest; unjoined = d.unjoined + 1 }) ⊎ (a ≡ addr)
    without addr rest f (inl k) = inl (inl k)
    without addr rest f (inr (inl p)) = inl (inr (inl p))
    without addr rest f (inr (inr m)) = elim (f m) [
      | inl stays ↦ inl (inr (inr stays))
      | inr e ↦ inr e
    ]

    go :
        (o : Option ((SwarmAddress × ℕ) × List (SwarmAddress × ℕ)))
        → take_at i d.running ≡ o
        → Remains a d.running o
        → Covered a (finish_task hex i chunk w syncs (g, d))
    go none e t = rw (e, finish_task) h
    go (some ((addr, price), rest)) e t =
        rw (e, finish_task)
          (landed-Covered hex chunk w syncs addr price a g
            (record d { running = rest; unjoined = d.unjoined + 1 }) writes (without addr rest t h))
