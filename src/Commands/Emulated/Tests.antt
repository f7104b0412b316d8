-- ===== src/Commands/Emulated/Tests.antt =====
-- src/command_buffer.cpp: a push descriptor of two writes with null handles, and the theorem at it.
