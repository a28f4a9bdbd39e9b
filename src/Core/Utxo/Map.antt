-- ===== src/Core/Utxo/Map.antt =====
-- The hash map of the UTXO set as an association list: what it holds, and its laws.
use scytale.Base.{
  ℕ, ◌+◌, ◌≡◌, refl, ◌∙◌, inl, inr, Bool-cases, Bool, true, false, Option, none, some, List, [],
  ◌∷◌, if◌then◌else◌, arith,
}
use scytale.Primitives.{OutPoint, outpoint_eq, outpoint_eq_refl, outpoint_eq→≡}
use scytale.Core.Types.{UtxoEntry}

abbrev pub Entries : Type 0
Entries = List (OutPoint × UtxoEntry)

abbrev pub lookup : OutPoint → Entries → Option UtxoEntry
lookup o [] = none
lookup o ((p, e) ∷ es) = if outpoint_eq p o then some e else lookup o es

abbrev pub contains_key : OutPoint → Entries → Bool
contains_key o es = elim (lookup o es) [ none ↦ false | some e ↦ true ]

-- A new key; the callers make sure that it is new.
abbrev pub insert_entry : OutPoint → UtxoEntry → Entries → Entries
insert_entry o e es = (o, e) ∷ es

abbrev pub remove_entry : OutPoint → Entries → Entries
remove_entry o [] = []
remove_entry o ((p, e) ∷ es) = if outpoint_eq p o then es else (p, e) ∷ remove_entry o es

-- No key occurs twice.
abbrev pub Distinct : Entries → Type 0
Distinct [] = Unit
Distinct ((o, e) ∷ es) = (lookup o es ≡ none) × Distinct es

-- All unspent value together, without a bound.
abbrev pub value_of : Entries → ℕ
value_of [] = 0
value_of ((o, e) ∷ es) = e.output.value + value_of es

outpoint_eq_comm : (p q : OutPoint) → outpoint_eq q p ≡ outpoint_eq p q
outpoint_eq_comm p q =
    ground (arith, outpoint_eq→≡ p q, outpoint_eq→≡ q p, outpoint_eq_refl p, outpoint_eq_refl q)

pub value_of-remove_entry :
    (o : OutPoint) (es : Entries) (e : UtxoEntry)
    → lookup o es ≡ some e
    → value_of (remove_entry o es) + e.output.value ≡ value_of es
value_of-remove_entry o [] e h = cc
value_of-remove_entry o ((p, f) ∷ es) e h = ground (arith, value_of-remove_entry o es e)

pub lookup-remove_entry_ne :
    (o q : OutPoint) (es : Entries)
    → outpoint_eq o q ≡ false
    → lookup q (remove_entry o es) ≡ lookup q es
lookup-remove_entry_ne o q [] h = refl
lookup-remove_entry_ne o q ((p, f) ∷ es) h =
    ground (arith, outpoint_eq→≡ p o, lookup-remove_entry_ne o q es h)

pub lookup-remove_entry_self :
    (o : OutPoint) (es : Entries) → Distinct es → lookup o (remove_entry o es) ≡ none
lookup-remove_entry_self o [] d = refl
lookup-remove_entry_self o ((p, f) ∷ es) d =
    ground (arith, outpoint_eq→≡ p o, lookup-remove_entry_self o es d.1)

pub remove_entry-Distinct :
    (o : OutPoint) (es : Entries) → Distinct es → Distinct (remove_entry o es)
remove_entry-Distinct o [] d = tt
remove_entry-Distinct o ((p, f) ∷ es) (d, ds) = elim (Bool-cases (outpoint_eq p o)) [
  | inl same ↦ rw (same, remove_entry) ds
  | inr other ↦
      rw (other, remove_entry)
        (
          lookup-remove_entry_ne o p es (outpoint_eq_comm p o ∙ other) ∙ d,
          remove_entry-Distinct o es ds,
        )
]
