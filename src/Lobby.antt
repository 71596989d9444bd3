-- ===== src/Lobby.antt =====
-- The lobby wire protocol (src/lobby/lobby_proto.h and .c): messages and codec in `Proto`, the
-- lobby code that players type in `Code`.
pub mod Proto
pub mod Code
pub mod Tests
