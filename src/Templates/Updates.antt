-- ===== src/Templates/Updates.antt =====
-- What an update keeps and adds.
use mathlib.Core.HLevel.{⊥_prop}
use mathlib.Core.List.{
  Mem, Nodup, Nodup-cons, map-append, mem-cons, mem-cons_self, mem-cons_of_mem, not-mem-nil,
  perm_append_singleton,
}
use mathlib.Core.List.Perm
use mathlib.Core.Logic.Or
use server_unit.Base.{
  ◌≡◌, refl, sym, subst, ap, ◌∙◌, Bool, true, false, ◌||◌, some, List, [], ◌∷◌, ◌++◌, map, String,
  str_eq, eq_iff, All, append_assoc, append-nil, arith, done, Returns, Returns-of_eq, Bool-cases,
  inl, inr,
}
use server_unit.Templates.{
  Template, UserDataTemplate, names, has_name, item_present, discard_missing, add_missing, update,
  is_matching_found,
}

discard_missing-eq : (given : List String) (ts : List Template) → discard_missing given ts ≡ ts
unfolding discard_missing
discard_missing-eq given [] = refl
discard_missing-eq given (t ∷ ts) = ground (arith, discard_missing-eq given ts)

has_name-append :
    (n : String) (xs ys : List String) → has_name n (xs ++ ys) ≡ (has_name n xs || has_name n ys)
unfolding has_name
has_name-append n [] ys = refl
has_name-append n (x ∷ xs) ys = ground (arith, has_name-append n xs ys)

names-append_one :
    (ts : List Template) (t : Template) → names (ts ++ t ∷ []) ≡ names ts ++ t.template_name ∷ []
names-append_one ts t = map-append _ ts (t ∷ [])

-- Some of the templates in `gs` whose names are not in `list`, behind it, make `result`.
record Added (list gs result : List Template) : Type 0 where
  added : List Template
  behind : result ≡ list ++ added
  given : All (λ t. Mem t gs) added
  fresh : All (λ t. has_name t.template_name (names list) ≡ false) added

All-weaken :
    (g : Template) (gs ts : List Template) → All (λ t. Mem t gs) ts → All (λ t. Mem t (g ∷ gs)) ts
All-weaken g gs [] h = tt
All-weaken g gs (t ∷ ts) (m, h) = (mem-cons_of_mem g m, All-weaken g gs ts h)

Added-skip :
    (g : Template) {list gs result : List Template}
    → Added list gs result
    → Added list (g ∷ gs) result
Added-skip g {gs = gs} a = record {
  added = a.added;
  behind = a.behind;
  given = All-weaken g gs a.added a.given;
  fresh = a.fresh;
}

All-fresh :
    (g : Template) (list ts : List Template)
    → All (λ t. has_name t.template_name (names (list ++ g ∷ [])) ≡ false) ts
    → All (λ t. has_name t.template_name (names list) ≡ false) ts
All-fresh g list [] h = tt
All-fresh g list (t ∷ ts) (f, h) = (
  ground (
    arith,
    f,
    ap (has_name t.template_name) (names-append_one list g),
    has_name-append t.template_name (names list) (g.template_name ∷ []),
  ),
  All-fresh g list ts h,
)

Added-take :
    (g : Template) {list gs result : List Template}
    → has_name g.template_name (names list) ≡ false
    → Added (list ++ g ∷ []) gs result
    → Added list (g ∷ gs) result
Added-take g {list} {gs} new a = record {
  added = g ∷ a.added;
  behind = a.behind ∙ append_assoc list (g ∷ []) a.added;
  given = (mem-cons_self, All-weaken g gs a.added a.given);
  fresh = (new, All-fresh g list a.added a.fresh);
}

add_missing-Added : (gs list : List Template) → Added list gs (add_missing list gs)
unfolding add_missing
add_missing-Added [] list = record {
  added = [];
  behind = sym (append-nil list);
  given = tt;
  fresh = tt;
}
add_missing-Added (g ∷ gs) list = elim (Bool-cases (has_name g.template_name (names list))) [
  | inl e ↦ rw (e, item_present) (Added-skip g (add_missing-Added gs list))
  | inr e ↦ rw (e, item_present) (Added-take g e (add_missing-Added gs (list ++ g ∷ [])))
]

has_name_of_eq :
    (n m : String) (ns : List String)
    → (str_eq n m) ≡ true
    → has_name m ns ≡ true
    → has_name n ns ≡ true
has_name_of_eq n m ns e h = subst (λ k. has_name k ns ≡ true) (sym ((eq_iff n m).0 e)) h

has_name-add_missing :
    (id : String) (gs list : List Template)
    → has_name id (names (add_missing list gs))
      ≡ (has_name id (names list) || has_name id (names gs))
unfolding add_missing has_name
has_name-add_missing id [] list = ground arith
has_name-add_missing id (g ∷ gs) list = elim (Bool-cases (has_name g.template_name (names list))) [
  | inl e ↦
      ground
        (arith, e, has_name-add_missing id gs list, has_name_of_eq id g.template_name (names list))
  | inr e ↦ ground (
    arith,
    e,
    has_name-add_missing id gs (list ++ g ∷ []),
    ap (has_name id) (names-append_one list g),
    has_name-append id (names list) (g.template_name ∷ []),
  )
]

pub has_name-mem : (n : String) (ns : List String) → has_name n ns ≡ false → ¬ Mem n ns
unfolding has_name
has_name-mem n [] h m = not-mem-nil m
has_name-mem n (x ∷ ns) h m =
    Or.elim ⊥_prop (mem-cons.0 m) (λ e. ground (arith, eq_iff n x))
      (has_name-mem n ns (ground arith))

Nodup-append_one : (ns : List String) (n : String) → Nodup ns → ¬ Mem n ns → Nodup (ns ++ n ∷ [])
Nodup-append_one ns n d h =
    Perm.nodup (Perm.symm (perm_append_singleton n ns)) (Nodup-cons.1 (h, d))

add_missing-Nodup :
    (gs list : List Template) → Nodup (names list) → Nodup (names (add_missing list gs))
unfolding add_missing
add_missing-Nodup [] list d = d
add_missing-Nodup (g ∷ gs) list d = elim (Bool-cases (has_name g.template_name (names list))) [
  | inl e ↦ rw (e, item_present) (add_missing-Nodup gs list d)
  | inr e ↦
      rw (e, item_present)
        (add_missing-Nodup gs (list ++ g ∷ []) (
          rw (names-append_one list g) (
            Nodup-append_one (names list) g.template_name d
              (has_name-mem g.template_name (names list) e))))
]

module _ {J : Type 0} (to_json : Template → J) where
  -- The registry after a successful update.
  abbrev after : Template → List Template → UserDataTemplate J → UserDataTemplate J
  after g gs u = record {
    template_list = add_missing u.template_list (g ∷ gs);
    json_list = map to_json (add_missing u.template_list (g ∷ gs));
    template_lock = 1;
    data_updated = record { flag = true };
  }

  update-eq :
      (g : Template) (gs : List Template) (u : UserDataTemplate J)
      → u.template_lock ≡ 1
      → update to_json (g ∷ gs) u
        ≡ done (0, after g gs u, some (names (add_missing u.template_list (g ∷ gs))))
  unfolding update
  update-eq g gs u free = ground (arith, discard_missing-eq (names (g ∷ gs)) u.template_list)

  -- An update with a list that is not empty, on a free lock, succeeds. All templates that were
  -- there stay, first and as they were, also those that the list does not name and those that it
  -- gives with other content. Behind them come templates of the list with names that were not there,
  -- so many that the names which are found are those that were there and those in the list. The
  -- packets are those of the new list, the update flag is set and the lock is free.
  pub update-keeps :
      (g : Template) (gs : List Template) (u : UserDataTemplate J)
      → u.template_lock ≡ 1
      → Returns
          (λ r.
            (r.0 ≡ 0)
            × ((added : List Template) × (r.1.template_list ≡ u.template_list ++ added)
                × All (λ t. Mem t (g ∷ gs)) added
                × All (λ t. has_name t.template_name (names u.template_list) ≡ false) added)
            × ((id : String)
                → has_name id (names r.1.template_list)
                  ≡ (has_name id (names u.template_list) || has_name id (names (g ∷ gs))))
            × (r.1.json_list ≡ map to_json r.1.template_list)
            × (r.1.data_updated ≡ record { flag = true })
            × (r.1.template_lock ≡ 1)
            × (r.2 ≡ some (names r.1.template_list)))
          (update to_json (g ∷ gs) u)
  update-keeps g gs u free =
      let a = add_missing-Added (g ∷ gs) u.template_list in
      Returns-of_eq _ (update to_json (g ∷ gs) u) (update-eq g gs u free) (
        refl,
        (a.added, a.behind, a.given, a.fresh),
        (λ id. has_name-add_missing id (g ∷ gs) u.template_list),
        refl,
        refl,
        refl,
        refl,
      )

  -- After an update a template is found if it was found before or is in the list, and only then,
  -- and distinct names stay distinct.
  pub update-names :
      (id : String) (g : Template) (gs : List Template) (u : UserDataTemplate J)
      → u.template_lock ≡ 1
      → Nodup (names u.template_list)
      → Returns
          (λ r.
            (is_matching_found id r.1
              ≡ done (has_name id (names u.template_list) || has_name id (names (g ∷ gs)), r.1))
            × Nodup (names r.1.template_list))
          (update to_json (g ∷ gs) u)
  unfolding is_matching_found
  update-names id g gs u free d =
      Returns-of_eq _ (update to_json (g ∷ gs) u) (update-eq g gs u free) (
        ap (λ (b : Bool). done (b, after g gs u))
            (has_name-add_missing id (g ∷ gs) u.template_list),
        add_missing-Nodup (g ∷ gs) u.template_list d,
      )
