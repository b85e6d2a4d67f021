-- ===== src/Main/Farewell.antt =====
-- src/main.c and src/server.c: what the shutdown does to the threads that serve a client.
-- "This will trigger the eventual termination of service threads."
use mathlib.Core.Logic.Or
use bourse_server.Base.{List}
use bourse_server.Protocol.Wire.{Wire}
