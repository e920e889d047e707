-- ===== src/Examples/ConsoleExamples.antt =====
-- Tests and examples for the rail, the commands and the palette.
use mathlib.Core.List.{Perm}
use proxyforward.Common.{◌≡◌, ◌↔◌, ◌++◌, refl, true, false, List, [], ◌∷◌, map, arith}
use proxyforward.Common.Lists.{filter}
use proxyforward.Common.Decimal.{Text, codes}
use proxyforward.Common.Int.{pos}
use proxyforward.Status.{Status}
use proxyforward.Nav.{traffic, NavItem}
use proxyforward.Commands.{
  Command, needle, fuzzy_score, score_of, score_from, index_of, command, actions, always,
  open_config,
}
use proxyforward.Commands.Fuzzy.{Subsequence, is_match, fuzzy_score-is_match_iff}
use proxyforward.Palette.{available, scored, results}
use proxyforward.Common.Sort.{IsArranged}
use proxyforward.Palette.Results.{Scores, results-IsRanked}

abbrev same_text : Text → Text
same_text t = t

abbrev gateway : Status
gateway = record {
  mode = "engine";
  role = "gateway";
  link_up = false;
  agent_connected = true;
  health_score = "good";
  agents = "good" ∷ [];
  public_ip = "203.0.113.9";
  peer_addr = "";
  engine_fatal = "";
}

fuzzy_hit : fuzzy_score same_text (codes "restart engine") (codes "re en") ≡ pos 1786
unfolding fuzzy_score score_of score_from index_of
fuzzy_hit = refl

fuzzy_miss : is_match (fuzzy_score same_text (codes "restart engine") (codes "rx")) ≡ false
unfolding fuzzy_score score_of score_from index_of
fuzzy_miss = refl

abbrev third : NavItem
third = record { id = traffic; label = "Traffic"; shortcut = codes "3" }

fuzzy_score-is_match_iff_example :
    (is_match (fuzzy_score same_text (codes "open config") (codes "oc")) ≡ true)
    ↔ Subsequence (needle same_text (codes "oc")) (codes "open config")
fuzzy_score-is_match_iff_example =
    fuzzy_score-is_match_iff same_text (codes "open config") (codes "oc") (omega arith)

results-IsRanked_example :
    Perm (results same_text gateway (codes "copy")) (
      filter
        (λ c. is_match (fuzzy_score same_text (c.title ++ (codes " " ++ c.hint)) (codes "copy")))
        (available gateway))
    × IsArranged Scores
        (map (scored same_text (codes "copy")) (results same_text gateway (codes "copy")))
results-IsRanked_example = results-IsRanked same_text gateway (codes "copy") refl

abbrev folder : Command
folder = command "Open config folder" "" actions always open_config

abbrev one_result : Text → List Command
one_result q = folder ∷ []
