-- ===== src/ShapeMap/Heap/Sweep/Entries.antt =====
-- forgetShape of lowcode/source/meta/shape_map.cpp: an entry is taken out of the parent's table.
use ely_square.Base.{
  ℕ, zero, suc, ◌+◌, ◌-◌, ◌<◌, ◌≤◌, ◌≡◌, ◌≢◌, refl, sym, ap, ◌∙◌, arith, Bool, true, inl, inr,
  Option, Option-cases, List, [], ◌∷◌, length, get_or, set, take, ok, length-set, ==_iff,
  ℕ_discrete, get_or-set_self, get_or-set_ne,
}
use ely_square.Base.Loops.{first_index, FirstIndex, at_index, nowhere, first_index-FirstIndex}
use ely_square.ShapeMap.{TransitionEntry}
use ely_square.ShapeMap.Heap.Sweep.{entry_leads_to, no_entry, remove_entry}

-- The table has an entry that leads to the address.
pub record HasTarget (p : ℕ) (table : List TransitionEntry) : Type 0 where
  pub index : ℕ
  pub inside : index < length table
  pub leads : entry_leads_to p (get_or table index no_entry) ≡ true

-- An entry leads to one address.
leads_to_inj :
    (p q : ℕ) (t : TransitionEntry) → entry_leads_to p t ≡ true → entry_leads_to q t ≡ true → p ≡ q
leads_to_inj p q t e e' = elim (Option-cases t.target_shape) [
  | inl null ↦ cc (rw null at e)
  | inr (r, to) ↦ sym ((==_iff r p).0 (rw to at e)) ∙ (==_iff r q).0 (rw to at e')
]

get_or-take :
    (k j : ℕ) (ts : List TransitionEntry)
    → j < k
    → get_or (take k ts) j no_entry ≡ get_or ts j no_entry
get_or-take zero j ts h = absurd (omega arith)
get_or-take (suc k) j [] h = refl
get_or-take (suc k) zero (t ∷ ts) h = refl
get_or-take (suc k) (suc j) (t ∷ ts) h = get_or-take k j ts (omega arith)

length-take_pred : (n : ℕ) (ts : List TransitionEntry) → n ≤ length ts → length (take n ts) ≡ n
length-take_pred zero ts h = refl
length-take_pred (suc n) [] h = elim h [ ]
length-take_pred (suc n) (t ∷ ts) h = ap suc (length-take_pred n ts (omega arith))

module _ (p i : ℕ) (table : List TransitionEntry) (inside : i < length table)
    (leads : entry_leads_to p (get_or table i no_entry) ≡ true) where
  -- The table without its entry `i`: the last one is moved there.
  abbrev without : List TransitionEntry
  without = take (length table - 1) (set table i (get_or table (length table - 1) no_entry))

  length-without : length without ≡ length table - 1
  length-without =
      length-take_pred (length table - 1) (set table i _)
        (omega (arith, length-set table i (get_or table (length table - 1) no_entry)))

  kept_target : (q : ℕ) → q ≢ p → HasTarget q table → HasTarget q without
  kept_target q ne t = elim (ℕ_discrete t.index (length table - 1)) [
    | yes last ↦ record {
      index = i;
      inside = omega (arith, length-without, moved last);
      leads =
          ap (entry_leads_to q) (
            get_or-take (length table - 1) i (set table i _) (moved last)
            ∙ get_or-set_self table i (get_or table (length table - 1) no_entry) no_entry inside)
          ∙ ap (λ j. entry_leads_to q (get_or table j no_entry)) (sym last)
          ∙ t.leads;
    }
    | no earlier ↦ record {
      index = t.index;
      inside = omega (arith, length-without, t.inside, earlier);
      leads =
          ap (entry_leads_to q) (
            get_or-take (length table - 1) t.index (set table i _)
              (omega (arith, t.inside, earlier))
            ∙ get_or-set_ne table i t.index (get_or table (length table - 1) no_entry) no_entry
                different)
          ∙ t.leads;
    }
  ]
    where
      different : i ≢ t.index
      different e = ne (
          leads_to_inj q p (get_or table t.index no_entry) t.leads
            (ap (λ j. entry_leads_to p (get_or table j no_entry)) (sym e) ∙ leads))

      moved : t.index ≡ length table - 1 → i < length table - 1
      moved last = omega (arith, last, different, inside)

-- Taking out the entry of a shape that the table leads to succeeds, and every other shape that the
-- table led to it leads to after.
pub remove_entry-HasTarget :
    (p : ℕ) (table : List TransitionEntry)
    → HasTarget p table
    → (table' : List TransitionEntry) × (remove_entry p table ≡ ok table')
      × (length table' ≡ length table - 1)
      × ((q : ℕ) → q ≢ p → HasTarget q table → HasTarget q table')
unfolding remove_entry
remove_entry-HasTarget p table t =
    let test : ℕ → Bool = λ i. entry_leads_to p (get_or table i no_entry) in
    by_index (first_index test (length table) 0) refl (first_index-FirstIndex test (length table) 0)
  where
    by_index :
        (o : Option ℕ)
        → first_index (λ i. entry_leads_to p (get_or table i no_entry)) (length table) 0 ≡ o
        → FirstIndex (λ i. entry_leads_to p (get_or table i no_entry)) 0 (0 + length table) o
        → (table' : List TransitionEntry) × (remove_entry p table ≡ ok table')
          × (length table' ≡ length table - 1)
          × ((q : ℕ) → q ≢ p → HasTarget q table → HasTarget q table')
    by_index o e (at_index {k = i} from below holds before) = (
      without p i table (omega arith) holds,
      rw (remove_entry, e) refl,
      length-without p i table (omega arith) holds,
      kept_target p i table (omega arith) holds,
    )
    by_index o e (nowhere all) = cc (all t.index (omega arith) (omega (arith, t.inside)), t.leads)
