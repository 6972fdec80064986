-- ===== src/Identity.antt =====
-- apps/backend/retrieval/identity.py: the trusted e-mail of a signed-in user.
use knowledge_graph_mvp.Prelude.{
  Option, Text, arith, if◌then◌else◌, lower, none, some, strip, true, ◌≡◌,
}
use knowledge_graph_mvp.Models.{Env}

-- `none` is `TrustedIdentityUnavailable`.
unfoldable pub normalize_trusted_email : Env → Text → Option Text
unfolding lower strip
normalize_trusted_email env value =
    let email = lower (strip value) in if env.valid_email email then some email else none

pub normalize_trusted_email-valid :
    (env : Env) (value email : Text)
    → normalize_trusted_email env value ≡ some email
    → env.valid_email email ≡ true
unfolding normalize_trusted_email
normalize_trusted_email-valid env value email h = ground arith
