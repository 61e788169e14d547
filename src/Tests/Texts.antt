-- ===== src/Tests/Texts.antt =====
-- Concrete text libraries that satisfy the laws: strings as lists, a hash map as a list of pairs
-- with the latest first.
use websocket_c.Common.{
  ℕ, ◌≡◌, ◌∙◌, Bool, true, false, Bool-cases, inl, inr, refl, sym, ap, Option, none, some, List, [],
  ◌∷◌, ◌++◌, if◌then◌else◌, length, arith,
}
use websocket_c.Http.Table.{text_equal_refl, text_equal→≡}
use mathlib.Core.Option.{some-injective}
use websocket_c.Cstd.Text.{
  Unicodes, Builders, HashMaps, IsUnicodes, IsBuilders, IsHashMaps, lower, text_equal, last_entry,
  AllFound,
}

abbrev pub plain_unicodes : Unicodes
plain_unicodes = record {
  Unicode = List ℕ;
  create = [];
  set_char = λ u s. (s, length s);
  to_lower = λ u. some (lower u);
  to_cstr = λ u. some u;
}

pub plain-IsUnicodes : IsUnicodes plain_unicodes
plain-IsUnicodes = record { set_all = λ s h. refl; lower_ascii = λ s h. (lower s, refl, refl) }

abbrev pub plain_builders : Builders
plain_builders = record {
  Builder = List ℕ;
  new = λ n. some [];
  append = λ b s. b ++ s;
  copy = λ b. some b;
  chars = λ b. b;
}

pub plain-IsBuilders : IsBuilders plain_builders
plain-IsBuilders = record {
  new_grants = λ n. ([], refl, refl);
  append_chars = λ b s. refl;
  copy_chars = λ b. refl;
}

abbrev Entries : Type 0
Entries = List (List ℕ × Option (List ℕ))

abbrev list_get : Entries → List ℕ → Option (Option (List ℕ))
list_get [] j = none
list_get (e ∷ es) j = if text_equal j e.0 then some e.1 else list_get es j

abbrev without : List ℕ → Entries → Entries
without k [] = []
without k (e ∷ es) = let rest = without k es in if text_equal e.0 k then rest else e ∷ rest

-- Each key once, with its latest value.
abbrev list_entries : Entries → Entries
list_entries [] = []
list_entries (e ∷ es) = e ∷ without e.0 (list_entries es)

abbrev pub list_maps : HashMaps
list_maps = record {
  HashMap = Entries;
  create = λ n. some [];
  set = λ m k v. some ((k, v) ∷ m);
  get = list_get;
  entries = list_entries;
}

apart : (j k x : List ℕ) → text_equal j k ≡ true → text_equal x k ≡ false → text_equal j x ≡ false
apart j k x e other = elim (Bool-cases (text_equal j x)) [
  | inl same ↦
      let both : text_equal x k ≡ true =
        ap (λ (t : List ℕ). text_equal t k) (sym (text_equal→≡ j x same)) ∙ e in
      absurd (ground (arith, both, other))
  | inr differ ↦ differ
]

last_entry-removed :
    (k j : List ℕ) (es : Entries) (before : Option (Option (List ℕ)))
    → text_equal j k ≡ true
    → last_entry (without k es) j before ≡ before
last_entry-removed k j [] before e = refl
last_entry-removed k j (x ∷ es) before e = elim (Bool-cases (text_equal x.0 k)) [
  | inl same ↦ rw (without, same) (last_entry-removed k j es before e)
  | inr other ↦
      let differ : text_equal j x.0 ≡ false = apart j k x.0 e other in
      rw (without, other)
        (last_entry-removed k j es _ e ∙ ap (λ (b : Bool). if b then some x.1 else before) differ)
]

last_entry-kept :
    (k j : List ℕ) (es : Entries) (before : Option (Option (List ℕ)))
    → text_equal j k ≡ false
    → last_entry (without k es) j before ≡ last_entry es j before
last_entry-kept k j [] before e = refl
last_entry-kept k j (x ∷ es) before e = elim (Bool-cases (text_equal x.0 k)) [
  | inl same ↦
      let differ : text_equal j x.0 ≡ false = ap (text_equal j) (text_equal→≡ x.0 k same) ∙ e in
      rw (without, same) (rw differ (last_entry-kept k j es before e))
  | inr other ↦ rw (without, other) (last_entry-kept k j es _ e)
]

list_entries-value : (m : Entries) (j : List ℕ) → last_entry (list_entries m) j none ≡ list_get m j
list_entries-value [] j = refl
list_entries-value (e ∷ es) j = elim (Bool-cases (text_equal j e.0)) [
  | inl same ↦
      last_entry-removed e.0 j (list_entries es) _ same
      ∙ ap (λ (b : Bool). if b then some e.1 else none) same
      ∙ sym (ap (λ (b : Bool). if b then some e.1 else list_get es j) same)
  | inr other ↦
      last_entry-kept e.0 j (list_entries es) _ other
      ∙ ap (λ (b : Bool). last_entry (list_entries es) j (if b then some e.1 else none)) other
      ∙ list_entries-value es j
      ∙ sym (ap (λ (b : Bool). if b then some e.1 else list_get es j) other)
]

found-without :
    (e : List ℕ × Option (List ℕ)) (es l : Entries)
    → AllFound (list_get es) l
    → AllFound (list_get (e ∷ es)) (without e.0 l)
found-without e es [] h = h
found-without e es (x ∷ l) (h, hs) = elim (Bool-cases (text_equal x.0 e.0)) [
  | inl same ↦ rw (without, same) (found-without e es l hs)
  | inr other ↦ rw (without, other) (rw (list_get, other) h, found-without e es l hs)
]

list_entries-found : (m : Entries) → AllFound (list_get m) (list_entries m)
list_entries-found [] = tt
list_entries-found (e ∷ es) = (
  rw (list_get, text_equal_refl e.0) refl,
  found-without e es (list_entries es) (list_entries-found es),
)

pub list-IsHashMaps : IsHashMaps list_maps
list-IsHashMaps = record {
  create_grants = λ n. ([], refl, λ k. refl);
  set_grants = λ m k v. ((k, v) ∷ m, refl);
  get_set =
      λ m m' k v e j. ap (λ (t : Entries). list_get t j) (sym (some-injective ((k, v) ∷ m) m' e));
  entries_value = list_entries-value;
  entries_found = list_entries-found;
}
