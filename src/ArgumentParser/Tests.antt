-- ===== src/ArgumentParser/Tests.antt =====
-- An option that is given twice.
use ladder.Prelude.{true, [], ◌∷◌}
use ladder.Prelude.Text.{codes}
use ladder.ArgumentParser.{ArgumentParser}

abbrev parser : ArgumentParser
parser = record {
  options = [];
  enabled = [];
  fields_options = (codes "port", true) ∷ [];
  fields_enabled = [];
}
