-- ===== src/SeqMap.antt =====
-- std::map<uint64_t, ChannelBase *>, as the channel map m_channels of src/SerfIoThread.h uses it. A
-- pointer is `none` where it is null. The program never iterates over the map.
use serf_cpp.Prelude.{ℕ, Option, none, some, List, [], ◌∷◌, ◌≡◌, refl, arith, ◌==◌, if◌then◌else◌}

abbrev pub SeqMap : Type 0
SeqMap = List (ℕ × Option ℕ)

-- map.find
unfoldable pub entry : ℕ → SeqMap → Option (Option ℕ)
entry k [] = none
entry k ((j, p) ∷ m) = if j == k then some p else entry k m

-- map[k] = p
unfoldable pub assign : ℕ → Option ℕ → SeqMap → SeqMap
assign k p [] = (k, p) ∷ []
assign k p ((j, q) ∷ m) = if j == k then (k, p) ∷ m else (j, q) ∷ assign k p m

-- map.erase(k)
unfoldable pub erase : ℕ → SeqMap → SeqMap
erase k [] = []
erase k ((j, q) ∷ m) = let rest = erase k m in if j == k then rest else (j, q) ∷ rest

-- the value of map[k]: null where the key was missing
abbrev pub value : Option (Option ℕ) → Option ℕ
value none = none
value (some p) = p

unfoldable pub pointer : ℕ → SeqMap → Option ℕ
unfolding entry
pointer k m = value (entry k m)

-- what map[k] leaves behind: a missing key is inserted, with a null pointer
unfoldable pub touch : ℕ → SeqMap → SeqMap
unfolding entry assign
touch k m = elim (entry k m) [ none ↦ assign k none m | some p ↦ m ]

pub entry-assign :
    (k j : ℕ) (p : Option ℕ) (m : SeqMap)
    → entry j (assign k p m) ≡ (if k == j then some p else entry j m)
unfolding entry assign
entry-assign k j p [] = refl
entry-assign k j p ((i, q) ∷ m) = ground (arith, entry-assign k j p m)

pub entry-erase :
    (k j : ℕ) (m : SeqMap) → entry j (erase k m) ≡ (if k == j then none else entry j m)
unfolding entry erase
entry-erase k j [] = ground arith
entry-erase k j ((i, q) ∷ m) = ground (arith, entry-erase k j m)

pub pointer-assign :
    (k j : ℕ) (p : Option ℕ) (m : SeqMap)
    → pointer j (assign k p m) ≡ (if k == j then p else pointer j m)
unfolding pointer
pointer-assign k j p m = rw (entry-assign k j p m) (ground arith)

pub pointer-erase :
    (k j : ℕ) (m : SeqMap) → pointer j (erase k m) ≡ (if k == j then none else pointer j m)
unfolding pointer
pointer-erase k j m = rw (entry-erase k j m) (ground arith)

-- looking a key up by operator[] changes no pointer
pub pointer-touch : (k j : ℕ) (m : SeqMap) → pointer j (touch k m) ≡ pointer j m
unfolding pointer touch
pointer-touch k j m = ground (arith, entry-assign k j none m)
