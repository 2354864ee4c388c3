-- ===== src/Examples/Paths.antt =====
-- A directory and a file in it.
use agent_gtd.Prelude.{◌≡◌, ◌↔◌, true}
use agent_gtd.Text.{Text, text}
use agent_gtd.Dag.Paths.{literal_paths_overlap}
use agent_gtd.Dag.Directory.{Touches}
use agent_gtd.Dag.Overlap.{literal_paths_overlap_iff}

literal_paths_overlap_iff_example :
    (literal_paths_overlap (text "src/app") (text "src/app/main.py") ≡ true)
    ↔ ((file : Text) × Touches (text "src/app") file × Touches (text "src/app/main.py") file)
literal_paths_overlap_iff_example =
    literal_paths_overlap_iff (text "src/app") (text "src/app/main.py")
