-- ===== src/Server/Logger/Tests.antt =====
-- Two lines of a log.
use dst_demo.Prelude.{List, [], ◌∷◌}
use dst_demo.Text.{Text, codes}
use dst_demo.Server.Logger.{Entry}

abbrev entries : List Entry
entries =
    record {
      level = codes "INFO";
      thread_id = codes "1";
      ts = codes "2026";
      target = codes "server";
      args = codes "started";
    }
    ∷ record {
      level = codes "ERROR";
      thread_id = codes "12";
      ts = codes "2026";
      target = codes "bank";
      args = codes "no file";
    }
    ∷ []
