-- ===== src/Ssh/Commands/Answers.antt =====
-- What the health check over SSH answers.
use nginx_admin.Common.{
  ◌≡◌, ◌↔◌, refl, ap, not, ◌++◌, Text, text, ◌===◌, ===_iff, if◌then◌else◌, Bool-cases, inl, inr,
}
use nginx_admin.Effects.{Action, Result, ok, fail, and_then, pure, throw}
use nginx_admin.Ssh.Commands.{marker, unhealthy, check_connection}

module _ {S : Type 0} where
  then_healthy : Result Text → S → Result (Unit {0}) × S
  unfolding ◌===◌
  then_healthy r =
      and_then r (λ output. if not (output === marker) then throw (unhealthy output) else pure tt)

  then_healthy_iff : (r : Result Text) (s : S) → ((then_healthy r s).0 ≡ ok tt) ↔ (r ≡ ok marker)
  unfolding then_healthy
  then_healthy_iff (fail e) s = (λ h. cc, λ h. cc)
  then_healthy_iff (ok output) s = elim (Bool-cases (output === marker)) [
    | inl same ↦ (λ h. ap ok ((===_iff output marker).0 same), λ h. rw same refl)
    | inr other ↦ (
      λ h. let bad = rw other at h in cc,
      λ h. let e : output ≡ marker = cc in let same = (===_iff output marker).1 e in cc,
    )
  ]

module _ {S : Type 0} (exec : Text → Action S Text) where
  -- The health check succeeds exactly if the one run of its `echo` answers the marker.
  check_connection_iff :
      (s : S)
      → ((check_connection exec s).0 ≡ ok tt) ↔ ((exec (text "echo " ++ marker) s).0 ≡ ok marker)
  unfolding check_connection then_healthy
  check_connection_iff s = let y = exec (text "echo " ++ marker) s in then_healthy_iff y.0 y.1
