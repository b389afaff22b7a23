-- ===== src/Bootstrap/Page/Tidy.antt =====
-- apps/web/src/pages/bootstrap/BootstrapPage.tsx: what the page shows.
use nginx_admin.Common.{
  Bool, true, false, none, List, [], ◌∷◌, ◌≡◌, refl, ◌⊎◌, inl, arith, if◌then◌else◌,
}
use nginx_admin.Effects.{Result, ok, fail}
use nginx_admin.Bootstrap.{IpcResult, success, failure, Context}
use nginx_admin.Bootstrap.Page.{
  Request, begin, finish, Page, opened, Event, check_clicked, install_submitted, unmounted,
  form_edited, context_answered, check_answered, install_answered, with_context, step, run,
}

-- A running request shows neither an answer nor a failure, and none ever shows both.
pub record IsTidy {A : Type 0} (r : Request A) : Type 0 where
  pub waiting : (r.running ≡ false) ⊎ ((r.problem ≡ none) × (r.result ≡ none))
  pub one : (r.problem ≡ none) ⊎ (r.result ≡ none)

module _ {A : Type 0} where
  begin-IsTidy : (r : Request A) → IsTidy r → IsTidy (begin r)
  unfolding begin
  begin-IsTidy r t = ground arith

  finish-IsTidy : (a : Result (IpcResult A)) (r : Request A) → IsTidy r → IsTidy (finish a r)
  unfolding finish
  finish-IsTidy (ok (success a)) r t = ground arith
  finish-IsTidy (ok (failure message code)) r t = ground arith
  finish-IsTidy (fail f) r t = ground arith

record BothTidy (p : Page) : Type 0 where
  pub check_tidy : IsTidy p.check
  pub install_tidy : IsTidy p.install

context-BothTidy :
    (b : Bool) (answer : IpcResult Context) (p : Page)
    → BothTidy p
    → BothTidy (if b then with_context answer p else p)
context-BothTidy true (success c) p t = record {
  check_tidy = t.check_tidy;
  install_tidy = t.install_tidy;
}
context-BothTidy true (failure message code) p t = record {
  check_tidy = t.check_tidy;
  install_tidy = t.install_tidy;
}
context-BothTidy false answer p t = t

step-BothTidy : (p : Page) (e : Event) → BothTidy p → BothTidy (step p e)
unfolding step
step-BothTidy p check_clicked t = record {
  check_tidy = begin-IsTidy p.check t.check_tidy;
  install_tidy = t.install_tidy;
}
step-BothTidy p install_submitted t = record {
  check_tidy = t.check_tidy;
  install_tidy = begin-IsTidy p.install t.install_tidy;
}
step-BothTidy p unmounted t = record { check_tidy = t.check_tidy; install_tidy = t.install_tidy }
step-BothTidy p (form_edited values) t = record {
  check_tidy = t.check_tidy;
  install_tidy = t.install_tidy;
}
step-BothTidy p (context_answered answer) t = context-BothTidy p.active answer p t
step-BothTidy p (check_answered answer) t = record {
  check_tidy = finish-IsTidy answer p.check t.check_tidy;
  install_tidy = t.install_tidy;
}
step-BothTidy p (install_answered answer) t = record {
  check_tidy = t.check_tidy;
  install_tidy = finish-IsTidy answer p.install t.install_tidy;
}

run_from-BothTidy : (es : List Event) (p : Page) → BothTidy p → BothTidy (run p es)
unfolding run
run_from-BothTidy [] p t = t
run_from-BothTidy (e ∷ es) p t = run_from-BothTidy es (step p e) (step-BothTidy p e t)

-- Whatever is clicked and answered, in any order: while the check of the host or the installation
-- runs, the page shows neither its answer nor its failure, and at no time both.
page-BothTidy : (es : List Event) → BothTidy (run opened es)
page-BothTidy es = run_from-BothTidy es opened (record {
  check_tidy = record { waiting = inl refl; one = inl refl };
  install_tidy = record { waiting = inl refl; one = inl refl };
})
