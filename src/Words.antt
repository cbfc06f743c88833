-- ===== src/Words.antt =====
-- The status words that the components exchange as plain strings.
use agentic_ai_software_engi.Base.{
  Text, codes, strip, upper, ◌≡◌, refl, ◌≢◌, ℕ_discrete, texts_differ, same_text,
}

unfoldable pub pass : Text
pass = codes "PASS"

unfoldable pub fail : Text
fail = codes "FAIL"

unfoldable pub skipped : Text
skipped = codes "SKIPPED"

unfoldable pub low : Text
low = codes "LOW"

unfoldable pub medium : Text
medium = codes "MEDIUM"

unfoldable pub high : Text
high = codes "HIGH"

unfoldable pub critical : Text
critical = codes "CRITICAL"

unfoldable pub block : Text
block = codes "BLOCK"

unfoldable pub review : Text
review = codes "REVIEW"

unfoldable pub ast_failure : Text
ast_failure = codes "AST_FAILURE"

unfoldable pub patch_application_failure : Text
patch_application_failure = codes "PATCH_APPLICATION_FAILURE"

unfoldable pub test_failure : Text
test_failure = codes "TEST_FAILURE"

unfoldable pub lint_failure : Text
lint_failure = codes "LINT_FAILURE"

unfoldable pub typecheck_failure : Text
typecheck_failure = codes "TYPECHECK_FAILURE"

unfoldable pub security_failure : Text
security_failure = codes "SECURITY_FAILURE"

unfoldable pub timeout : Text
timeout = codes "TIMEOUT"

unfoldable pub unknown_failure : Text
unknown_failure = codes "UNKNOWN_FAILURE"

pub pass-ne-fail : pass ≢ fail
unfolding pass fail same_text
pass-ne-fail = texts_differ _ _ refl

pub upper-strip-pass : upper (strip pass) ≡ pass
unfolding pass strip upper ℕ_discrete
upper-strip-pass = refl

pub upper-strip-fail : upper (strip fail) ≡ fail
unfolding fail strip upper ℕ_discrete
upper-strip-fail = refl

pub upper-pass : upper pass ≡ pass
unfolding pass upper
upper-pass = refl

pub upper-fail : upper fail ≡ fail
unfolding fail upper
upper-fail = refl
