-- ===== src/Safety/Examples.antt =====
-- The theorems on the safety policy at concrete commands.
use issue_to_pr_agent.Prelude.{has_part, ◌≡◌, ◌↔◌, refl, true, codes, strip}
use issue_to_pr_agent.Domain.Commands.{allow, review, block}
use issue_to_pr_agent.Safety.Commands.{assess_command, decide_command, redirects, lower}
use issue_to_pr_agent.Safety.Allowed.{BareRedirect, redirects_iff, IsSafe, assess_command-IsSafe}

redirects_iff_example : (redirects (codes "cat a>b") ≡ true) ↔ BareRedirect (codes "cat a>b")
redirects_iff_example = redirects_iff (codes "cat a>b")

pytest_is_allowed : (assess_command " PyTest -k 'a>=1' ").decision ≡ allow
unfolding assess_command decide_command strip has_part lower
pytest_is_allowed = refl

some_commands :
    ((assess_command "pytest; ls").decision ≡ block)
    × ((assess_command "ls > out").decision ≡ block)
    × ((assess_command "sudo").decision ≡ block)
    × ((assess_command "make").decision ≡ review)
    × ((assess_command " ").decision ≡ review)
unfolding assess_command decide_command strip has_part lower
some_commands = (refl, refl, refl, refl, refl)

assess_command-IsSafe_example : IsSafe (codes (strip " PyTest -k 'a>=1' "))
assess_command-IsSafe_example = assess_command-IsSafe " PyTest -k 'a>=1' " pytest_is_allowed
