-- ===== src/Server/Problem/Statuses.antt =====
-- Which requests pass, and what a caller can tell from a status (server.go: auth, writeError).
use teploy_sandbox.Prelude.{
  ◌≡◌, refl, sym, ap, ◌∙◌, ◌↔◌, inl, inr, none, some, [], ◌∷◌, ◌++◌, arith, ==_iff, Bool-cases,
  Option-cases, Text, codes, text_eq, text_eq_iff,
}
use teploy_sandbox.Server.Problem.{Problem, problem, drop_prefix, auth}

drop_prefix_iff : (p s rest : Text) → (drop_prefix p s ≡ some rest) ↔ (s ≡ p ++ rest)
unfolding drop_prefix
drop_prefix_iff [] s rest = (λ h. ground arith, λ h. ap some h)
drop_prefix_iff (c ∷ p) [] rest = (λ h. ground arith, λ h. ground arith)
drop_prefix_iff (c ∷ p) (d ∷ s) rest = ground (arith, drop_prefix_iff p s rest, ==_iff c d)

refused_status : (detail : Text) (p : Problem) → some (problem 401 detail) ≡ some p → p.status ≡ 401
unfolding problem
refused_status detail p h =
    let e : problem 401 detail ≡ p = ground arith in ap (λ q. q.status) (sym e)

-- A request passes exactly if its Authorization header is "Bearer " and the daemon's token; any other
-- is answered with status 401.
pub auth_iff :
    (token header : Text)
    → ((auth token header ≡ none) ↔ (header ≡ codes "Bearer " ++ token))
      × ((p : Problem) → auth token header ≡ some p → p.status ≡ 401)
unfolding auth problem
auth_iff token header = elim (Option-cases (drop_prefix (codes "Bearer ") header)) [
  | inl lacks ↦
      rw (lacks, auth)
        (
          (
            λ h. ground arith,
            λ h. ground (arith, lacks, (drop_prefix_iff (codes "Bearer ") header token).1 h),
          ),
          λ p h. refused_status _ p h,
        )
  | inr (given, has) ↦
      let parts : header ≡ codes "Bearer " ++ given =
        (drop_prefix_iff (codes "Bearer ") header given).0 has in
      elim (Bool-cases (text_eq given token)) [
        | inl same ↦
            rw (has, auth)
              (rw same (
                (
                  λ h. parts ∙ ap (◌++◌ (codes "Bearer ")) ((text_eq_iff given token).0 same),
                  λ h. refl,
                ),
                λ p h. ground arith,
              ))
        | inr other ↦
            rw (has, auth)
              (rw other (
                (
                  λ h. ground arith,
                  λ h.
                      let found : some given ≡ some token =
                        sym has ∙ (drop_prefix_iff (codes "Bearer ") header token).1 h in
                      let same : given ≡ token = ground arith in
                      ground (arith, other, same, text_eq_iff given token),
                ),
                λ p h. refused_status _ p h,
              ))
      ]
]
