-- ===== src/Greeter/Tag/Tests.antt =====
-- The theorems on the tags of grpcdemo/server_async.cc at concrete tags.
