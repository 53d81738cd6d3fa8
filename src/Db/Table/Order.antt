-- ===== src/Db/Table/Order.antt =====
-- The order that a client asks the node table for (src/db.rs: read_nodes), told by its columns.
use bip110_crawler.Common.{
  ℕ, ◌≤◌, ◌≡◌, refl, Bool, true, false, ◌||◌, List, [], ◌∷◌, ◌++◌, Option, none, some,
  if◌then◌else◌, leb, leb→le, Text, codes, list_eq, text_leb, leb_ℤ, ◌≤ℤ◌, Bool-cases, inl, inr,
  insert_with, sort_with, arith, subst, sym, ap, ◌∙◌, ℤ,
}
use mathlib.Core.List.{reverse, reverse-cons}
use bip110_crawler.Db.Table.{NodeRow, NodeQuery, option_leb, row_leb, sorted_rows}

pub data Column : Type 0 where
  implementation version protocol_version bip110 country latency depth : Column

-- The column that a client names; any other name is the depth.
abbrev pub column : Text → Column
column sort =
    if list_eq sort (codes "implementation")
    then Column.implementation
    else if list_eq sort (codes "version")
    then Column.version
    else if list_eq sort (codes "protocol_version")
    then Column.protocol_version
    else if list_eq sort (codes "bip110")
    then Column.bip110
    else if list_eq sort (codes "location") || list_eq sort (codes "country")
    then Column.country
    else if list_eq sort (codes "latency")
    then Column.latency
    else Column.depth

-- NULL stands before every value.
abbrev pub NullFirst {ℓ} : {A : Type ℓ} → (A → A → Type 0) → Option A → Option A → Type 0
NullFirst R none b = Unit {0}
NullFirst R (some a) none = ⊥
NullFirst R (some a) (some b) = R a b

-- A row has at most the other's value in the column.
abbrev pub AtMost : Column → NodeRow → NodeRow → Type 0
AtMost Column.implementation a b = text_leb a.implementation b.implementation ≡ true
AtMost Column.version a b = text_leb a.version b.version ≡ true
AtMost Column.protocol_version a b = a.protocol_version ≤ℤ b.protocol_version
AtMost Column.bip110 a b = text_leb a.bip110 b.bip110 ≡ true
AtMost Column.country a b = NullFirst (λ s t. text_leb s t ≡ true) a.country b.country
AtMost Column.latency a b = NullFirst (λ m n. m ≤ n) a.latency_ms b.latency_ms
AtMost Column.depth a b = a.depth ≤ b.depth

-- The order asked for: ascending by the column, or descending.
abbrev pub Asked : Bool → Column → NodeRow → NodeRow → Type 0
Asked true c a b = AtMost c b a
Asked false c a b = AtMost c a b

-- Each row stands before the next by the relation.
abbrev pub InOrder : (NodeRow → NodeRow → Type 0) → List NodeRow → Type 0
InOrder R [] = Unit {0}
InOrder R (a ∷ []) = Unit {0}
InOrder R (a ∷ b ∷ rows) = R a b × InOrder R (b ∷ rows)

InOrder-imp :
    (R S : NodeRow → NodeRow → Type 0) (rows : List NodeRow)
    → ((a b : NodeRow) → R a b → S a b)
    → InOrder R rows
    → InOrder S rows
InOrder-imp R S [] f h = tt
InOrder-imp R S (a ∷ []) f h = tt
InOrder-imp R S (a ∷ b ∷ rows) f (h, hs) = (f a b h, InOrder-imp R S (b ∷ rows) f hs)

module _ (le : NodeRow → NodeRow → Bool)
    (total : (a b : NodeRow) → le a b ≡ false → le b a ≡ true) where
  abbrev Le : NodeRow → NodeRow → Type 0
  Le a b = le a b ≡ true

  insert_with-InOrder :
      (x : NodeRow) (ys : List NodeRow) → InOrder Le ys → InOrder Le (insert_with le x ys)
  unfolding insert_with
  insert_with-InOrder x [] h = tt
  insert_with-InOrder x (y ∷ []) h = elim (Bool-cases (le x y)) [
    | inl e ↦ rw (e, insert_with) (e, tt)
    | inr e ↦ rw (e, insert_with) (total x y e, tt)
  ]
  insert_with-InOrder x (y ∷ z ∷ ys) (h, hs) = elim (Bool-cases (le x y)) [
    | inl e ↦ rw (e, insert_with) (e, (h, hs))
    | inr e ↦
        let deeper = insert_with-InOrder x (z ∷ ys) hs in
        elim (Bool-cases (le x z)) [
          | inl q ↦ rw (e, insert_with, q) (total x y e, (q, hs))
          | inr q ↦ rw (e, insert_with, q) (h, rw (q, insert_with) at deeper)
        ]
  ]

  sort_with-InOrder : (rows : List NodeRow) → InOrder Le (sort_with le rows)
  unfolding sort_with
  sort_with-InOrder [] = tt
  sort_with-InOrder (x ∷ rows) = insert_with-InOrder x (sort_with le rows) (sort_with-InOrder rows)

module _ (R : NodeRow → NodeRow → Type 0) where
  InOrder-snoc :
      (zs : List NodeRow) (y x : NodeRow)
      → InOrder R (zs ++ y ∷ [])
      → R y x
      → InOrder R ((zs ++ y ∷ []) ++ x ∷ [])
  InOrder-snoc [] y x h r = (r, tt)
  InOrder-snoc (z ∷ []) y x h r = (h.0, (r, tt))
  InOrder-snoc (z ∷ w ∷ zs) y x h r = (h.0, InOrder-snoc (w ∷ zs) y x h.1 r)

InOrder-reverse :
    (R : NodeRow → NodeRow → Type 0) (rows : List NodeRow)
    → InOrder R rows
    → InOrder (λ a b. R b a) (reverse rows)
InOrder-reverse R [] h = tt
InOrder-reverse R (x ∷ []) h = tt
InOrder-reverse R (x ∷ y ∷ rows) (h, hs) =
    let C : List NodeRow → Type 0 = InOrder (λ a b. R b a) in
    let tail : C (reverse rows ++ y ∷ []) =
      subst C (reverse-cons y rows) (InOrder-reverse R (y ∷ rows) hs) in
    let both = InOrder-snoc (λ a b. R b a) (reverse rows) y x tail h in
    subst C (sym (reverse-cons x (y ∷ rows) ∙ ap (λ r. r ++ x ∷ []) (reverse-cons y rows))) both

leb_total : (m n : ℕ) → leb m n ≡ false → leb n m ≡ true
leb_total m n h = ground arith

leb_ℤ_total : (a b : ℤ) → leb_ℤ a b ≡ false → leb_ℤ b a ≡ true
leb_ℤ_total a b h = leb_total _ _ h

text_leb_total : (s t : Text) → text_leb s t ≡ false → text_leb t s ≡ true
unfolding text_leb
text_leb_total [] t h = absurd (cc h)
text_leb_total (c ∷ s) [] h = refl
text_leb_total (c ∷ s) (d ∷ t) h = ground (arith, h, text_leb_total s t)

option_leb_total :
    {A : Type 0} (le : A → A → Bool) (a b : Option A)
    → ((x y : A) → le x y ≡ false → le y x ≡ true)
    → option_leb le a b ≡ false
    → option_leb le b a ≡ true
unfolding option_leb
option_leb_total le none b total h = absurd (cc h)
option_leb_total le (some x) none total h = refl
option_leb_total le (some x) (some y) total h = total x y h

option_leb-NullFirst :
    {A : Type 0} (le : A → A → Bool) (R : A → A → Type 0) (a b : Option A)
    → ((x y : A) → le x y ≡ true → R x y)
    → option_leb le a b ≡ true
    → NullFirst R a b
unfolding option_leb
option_leb-NullFirst le R none b imp h = tt
option_leb-NullFirst le R (some x) none imp h = absurd (cc h)
option_leb-NullFirst le R (some x) (some y) imp h = imp x y h

-- The comparison by a column.
column_leb : Column → NodeRow → NodeRow → Bool
column_leb Column.implementation a b = text_leb a.implementation b.implementation
column_leb Column.version a b = text_leb a.version b.version
column_leb Column.protocol_version a b = leb_ℤ a.protocol_version b.protocol_version
column_leb Column.bip110 a b = text_leb a.bip110 b.bip110
column_leb Column.country a b = option_leb text_leb a.country b.country
column_leb Column.latency a b = option_leb leb a.latency_ms b.latency_ms
column_leb Column.depth a b = leb a.depth b.depth

column_leb_total : (c : Column) (a b : NodeRow) → column_leb c a b ≡ false → column_leb c b a ≡ true
unfolding column_leb
column_leb_total Column.implementation a b h = text_leb_total _ _ h
column_leb_total Column.version a b h = text_leb_total _ _ h
column_leb_total Column.protocol_version a b h = leb_ℤ_total a.protocol_version b.protocol_version h
column_leb_total Column.bip110 a b h = text_leb_total _ _ h
column_leb_total Column.country a b h = option_leb_total text_leb _ _ text_leb_total h
column_leb_total Column.latency a b h = option_leb_total leb _ _ leb_total h
column_leb_total Column.depth a b h = leb_total _ _ h

column_leb-AtMost : (c : Column) (a b : NodeRow) → column_leb c a b ≡ true → AtMost c a b
unfolding column_leb
column_leb-AtMost Column.implementation a b h = h
column_leb-AtMost Column.version a b h = h
column_leb-AtMost Column.protocol_version a b h = leb→le _ _ h
column_leb-AtMost Column.bip110 a b h = h
column_leb-AtMost Column.country a b h = option_leb-NullFirst _ _ _ _ (λ x y e. e) h
column_leb-AtMost Column.latency a b h = option_leb-NullFirst leb _ _ _ (λ x y e. leb→le x y e) h
column_leb-AtMost Column.depth a b h = leb→le _ _ h

column_choice :
    (f : Column → Bool) (c1 c2 c3 c4 c5 c6 : Bool)
    → (if c1
        then f Column.implementation
        else if c2
        then f Column.version
        else if c3
        then f Column.protocol_version
        else if c4
        then f Column.bip110
        else if c5
        then f Column.country
        else if c6
        then f Column.latency
        else f Column.depth)
      ≡ f (
          if c1
          then Column.implementation
          else if c2
          then Column.version
          else if c3
          then Column.protocol_version
          else if c4
          then Column.bip110
          else if c5
          then Column.country
          else if c6
          then Column.latency
          else Column.depth)
column_choice f true c2 c3 c4 c5 c6 = refl
column_choice f false true c3 c4 c5 c6 = refl
column_choice f false false true c4 c5 c6 = refl
column_choice f false false false true c5 c6 = refl
column_choice f false false false false true c6 = refl
column_choice f false false false false false true = refl
column_choice f false false false false false false = refl

row_leb-column_leb : (sort : Text) (a b : NodeRow) → row_leb sort a b ≡ column_leb (column sort) a b
unfolding row_leb column_leb
row_leb-column_leb sort a b =
    column_choice (λ c. column_leb c a b) (list_eq sort (codes "implementation"))
      (list_eq sort (codes "version")) (list_eq sort (codes "protocol_version"))
      (list_eq sort (codes "bip110"))
      (list_eq sort (codes "location") || list_eq sort (codes "country"))
      (list_eq sort (codes "latency"))

pub sorted_rows-InOrder :
    (query : NodeQuery) (rows : List NodeRow)
    → InOrder (Asked query.dir_desc (column query.sort)) (sorted_rows query rows)
unfolding sorted_rows
sorted_rows-InOrder query rows =
    let le = row_leb query.sort in
    let R : NodeRow → NodeRow → Type 0 = AtMost (column query.sort) in
    let same = row_leb-column_leb query.sort in
    let total : (a b : NodeRow) → le a b ≡ false → le b a ≡ true =
      λ a b e. same b a ∙ column_leb_total (column query.sort) a b (sym (same a b) ∙ e) in
    let up : InOrder R (sort_with le rows) =
      InOrder-imp (Le le total) R _
        (λ a b e. column_leb-AtMost (column query.sort) a b (sym (same a b) ∙ e))
        (sort_with-InOrder le total rows) in
    elim (Bool-cases query.dir_desc) [
      | inl down ↦ rw down (InOrder-reverse R _ up)
      | inr asc ↦ rw asc up
    ]
