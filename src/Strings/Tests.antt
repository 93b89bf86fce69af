-- ===== src/Strings/Tests.antt =====
-- Runs of the text helpers at fixed inputs.
use rwf.Prelude.{◌≡◌, refl}
use rwf.Prelude.Text.{codes}
use rwf.Strings.{snake_case}

snake_case_sample : snake_case (codes "HttpUser-name") ≡ codes "http_user_name"
unfolding snake_case
snake_case_sample = refl
