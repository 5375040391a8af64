-- ===== src/Org/SpecExamples.antt =====
-- The theorems about the roles of members at a small office: Ann owns it, Bob is an admin, and Eve
-- has a pending invitation.
use saas_backend_fastapi.Prelude.{
  String, some, none, List, [], ◌∷◌, ◌≡◌, ◌≢◌, ◌⊎◌, refl, arith, eq_iff,
}
use saas_backend_fastapi.Prelude.Rows.{select, any}
use saas_backend_fastapi.Models.{owner, admin, member}
use saas_backend_fastapi.Samples.{platform, ann, bob, eve, acme, office, at_time}
use saas_backend_fastapi.Org.Spec.{
  Call, Run, update_member_role, remove_member, accept_invitation, delete, roles_of, IsConsistent,
}
use saas_backend_fastapi.Org.Requests.{serve}
use saas_backend_fastapi.Org.Refinement.{serve_refines}
use saas_backend_fastapi.Org.Outsiders.{outsider_stays_out}
use saas_backend_fastapi.Org.Handover.{handover, handover_reached}

office-IsConsistent : IsConsistent office
unfolding select
office-IsConsistent = record {
  ids = λ i. ground (arith, eq_iff "m1" i, eq_iff "m2" i, eq_iff "m1" "m2");
  pairs = λ u o. ground (arith, eq_iff "ann" u, eq_iff "bob" u, eq_iff "ann" "bob");
}

-- Bob promotes himself and throws Ann out; Eve accepts her invitation.
abbrev takeover : List Call
takeover =
    update_member_role acme "bob" owner bob
    ∷ remove_member acme "ann" bob
    ∷ accept_invitation "invite" eve
    ∷ []

serve_refines_example :
    Run takeover (roles_of office) (roles_of (serve platform takeover (at_time 10 office)).db)
    × IsConsistent (serve platform takeover (at_time 10 office)).db
serve_refines_example = serve_refines platform takeover (at_time 10 office) office-IsConsistent

-- what Ann and Bob may try without Eve
abbrev without_eve : List Call
without_eve =
    update_member_role acme "eve" member ann ∷ remove_member acme "bob" ann ∷ delete acme ann ∷ []

outsider_stays_out_example :
    roles_of (serve platform without_eve (at_time 10 office)).db "acme" "eve" ≡ none
unfolding select any
outsider_stays_out_example =
    outsider_stays_out platform without_eve (at_time 10 office) "eve" "acme" office-IsConsistent
      refl refl

handover_reached_example :
    let r = roles_of (serve platform (handover acme "bob" ann) (at_time 10 office)).db in
    (r "acme" "bob" ≡ some owner)
    × (r "acme" "ann" ≡ none)
    × ((u o : String) → ((u ≢ "bob") × (u ≢ "ann")) ⊎ (o ≢ "acme") → r o u ≡ roles_of office o u)
unfolding select
handover_reached_example =
    handover_reached platform acme "bob" ann admin (at_time 10 office) office-IsConsistent
      (λ e. absurd (ground (arith, eq_iff "bob" "ann"))) refl refl
