-- ===== src/Biz/Overlaps/Whole.antt =====
-- The worker's calls in a row are the handling of an event
-- (injectService/pull/src/app/serverBiz.cpp and processCommonApi.cpp).
use pull_stream.External.{External}
use pull_stream.World.{World}
