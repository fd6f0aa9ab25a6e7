-- ===== src/Templates/Examples.antt =====
-- Templates `a` and `b`, and an update with `b` and `c`. A packet is the template's content.
use mathlib.Core.List.{Mem}
use server_unit.Base.{
  ◌≡◌, refl, true, false, ◌||◌, some, List, [], ◌∷◌, ◌++◌, map, String, All, Returns,
}
use server_unit.Templates.{Template, UserDataTemplate, names, has_name, update}
use server_unit.Templates.Updates.{update-keeps}

abbrev template : String → Template
template name = record { template_name = name; algo_type = 1; content = name }

abbrev content_of : Template → String
content_of t = t.content

abbrev stored : UserDataTemplate String
stored = record {
  template_list = template "a" ∷ template "b" ∷ [];
  json_list = "a" ∷ "b" ∷ [];
  template_lock = 1;
  data_updated = record { flag = false };
}

update-keeps_example :
    Returns
      (λ r.
        (r.0 ≡ 0)
        × ((added : List Template) × (r.1.template_list ≡ stored.template_list ++ added)
            × All (λ t. Mem t (template "b" ∷ template "c" ∷ [])) added
            × All (λ t. has_name t.template_name (names stored.template_list) ≡ false) added)
        × ((id : String)
            → has_name id (names r.1.template_list) ≡ (
                has_name id (names stored.template_list)
                || has_name id (names (template "b" ∷ template "c" ∷ []))))
        × (r.1.json_list ≡ map content_of r.1.template_list)
        × (r.1.data_updated ≡ record { flag = true })
        × (r.1.template_lock ≡ 1)
        × (r.2 ≡ some (names r.1.template_list)))
      (update content_of (template "b" ∷ template "c" ∷ []) stored)
update-keeps_example = update-keeps content_of (template "b") (template "c" ∷ []) stored refl
