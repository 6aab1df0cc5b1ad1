-- ===== src/Errors/Chain.antt =====
-- The tree of the errors that an error wraps, and what is found in it.
use pulse_go.Base.{◌≡◌, refl, arith, ap, ◌∙◌, sym, Option, none, some, List, [], ◌∷◌, ◌++◌}
use pulse_go.Errors.{
  Error, CloseInfo, ApplicationError, insecure_tls_non_loopback, insecure_tls_target, application,
  terminal, wrapped, joined, or_else, as_terminal, as_application, close_info_from_error,
}

-- The cause of a terminal error.
abbrev causes : Option ApplicationError → List Error
causes none = []
causes (some a) = application a ∷ []

-- The errors that `errors.As` looks at, in its order: the error, and then those that its `Unwrap`
-- gives, each with its own in front of the next.
unfoldable pub chain : Error → List Error
chain (insecure_tls_target host) = insecure_tls_target host ∷ insecure_tls_non_loopback ∷ []
chain (terminal info cause) = terminal info cause ∷ causes cause
chain (wrapped operation e) = wrapped operation e ∷ chain e
chain (joined a b) = joined a b ∷ (chain a ++ chain b)
chain e = e ∷ []

-- The first that a test gives a value for.
unfoldable pub first {ℓ} : {A : Type ℓ} → (Error → Option A) → List Error → Option A
first test [] = none
first test (e ∷ es) = or_else (test e) (first test es)

-- A single error that is a `*TerminalError`, or an `*ApplicationError`.
abbrev pub terminal_info : Error → Option CloseInfo
terminal_info (terminal info cause) = some info
terminal_info _ = none

abbrev pub application_error : Error → Option ApplicationError
application_error (application a) = some a
application_error _ = none

or_else_assoc {ℓ} :
    {A : Type ℓ} (a b c : Option A) → or_else (or_else a b) c ≡ or_else a (or_else b c)
or_else_assoc none b c = refl
or_else_assoc (some a) b c = refl

or_else-none {ℓ} : {A : Type ℓ} (a : Option A) → or_else a none ≡ a
or_else-none none = refl
or_else-none (some a) = refl

first-append {ℓ} :
    {A : Type ℓ} (test : Error → Option A) (xs ys : List Error)
    → first test (xs ++ ys) ≡ or_else (first test xs) (first test ys)
unfolding first
first-append test [] ys = refl
first-append test (x ∷ xs) ys =
    ap (or_else (test x)) (first-append test xs ys)
    ∙ sym (or_else_assoc (test x) (first test xs) (first test ys))

info_of : Option (CloseInfo × Option ApplicationError) → Option CloseInfo
info_of none = none
info_of (some (info, cause)) = some info

info_of-or_else :
    (a b : Option (CloseInfo × Option ApplicationError))
    → info_of (or_else a b) ≡ or_else (info_of a) (info_of b)
unfolding info_of
info_of-or_else none b = refl
info_of-or_else (some a) b = refl

info_of-as_terminal : (e : Error) → info_of (as_terminal e) ≡ first terminal_info (chain e)
unfolding info_of as_terminal chain first
info_of-as_terminal (terminal info none) = refl
info_of-as_terminal (terminal info (some a)) = refl
info_of-as_terminal (wrapped operation e) = info_of-as_terminal e
info_of-as_terminal (joined a b) =
    info_of-or_else (as_terminal a) (as_terminal b)
    ∙ ap (λ x. or_else x (info_of (as_terminal b))) (info_of-as_terminal a)
    ∙ ap (or_else (first terminal_info (chain a))) (info_of-as_terminal b)
    ∙ sym (first-append terminal_info (chain a) (chain b))
info_of-as_terminal e = ground arith

as_application_lem : (e : Error) → as_application e ≡ first application_error (chain e)
unfolding as_application chain first
as_application_lem (terminal info none) = refl
as_application_lem (terminal info (some a)) = refl
as_application_lem (wrapped operation e) = as_application_lem e
as_application_lem (joined a b) =
    ap (λ x. or_else x (as_application b)) (as_application_lem a)
    ∙ ap (or_else (first application_error (chain a))) (as_application_lem b)
    ∙ sym (first-append application_error (chain a) (chain b))
as_application_lem e = ground arith

close_info-info_of : (e : Error) → close_info_from_error e ≡ info_of (as_terminal e)
unfolding close_info_from_error info_of
close_info-info_of e = ground arith

-- The close information of an error is that of the first terminal error among the error and those
-- that it wraps, each looked at in front of what it wraps itself; the application close that the
-- mapping of errors finds is the first one among them.
pub close_info-first :
    (e : Error)
    → (close_info_from_error e ≡ first terminal_info (chain e))
      × (as_application e ≡ first application_error (chain e))
close_info-first e = (close_info-info_of e ∙ info_of-as_terminal e, as_application_lem e)
