-- ===== src/ArgumentParser/First.antt =====
-- The first value of an option is the one that counts.
use ladder.ArgumentParser.{ArgumentParser}
