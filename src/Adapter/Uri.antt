-- ===== src/Adapter/Uri.antt =====
-- The parts of a parsed adapter URI that the factories read.
use registrator.Common.{String}

pub record Uri : Type 0 where
  pub scheme : String
  pub host : String
  pub path : String
